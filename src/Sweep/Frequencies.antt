-- ===== src/Sweep/Frequencies.antt =====
-- src/rf/sweep.c: the frequencies of the points, for the build that has no table of them. A
-- `uint32_t` is a number below 2 ^ 32.
pub mod Table
pub mod Laws
use nano_vna_x.Base.{ℕ, ◌+◌, ◌-◌, ◌*◌, ◌/◌, ◌%◌, ◌^◌, u32, sub32}

-- _f_start, _f_points, _f_delta and _f_error
pub record Frequencies : Type 0 where
  pub f_start : ℕ
  pub f_points : ℕ
  pub f_delta : ℕ
  pub f_error : ℕ

unfoldable pub app_measurement_set_frequencies : ℕ → ℕ → ℕ → Frequencies
app_measurement_set_frequencies start stop points =
    let span = sub32 stop start in
    let f_points = sub32 points 1 % 2 ^ 16 in
    record {
      f_start = start;
      f_points = f_points;
      f_delta = span / f_points;
      f_error = span % f_points;
    }

unfoldable pub get_frequency : Frequencies → ℕ → ℕ
get_frequency fs idx = u32 (
    u32 (fs.f_start + u32 (fs.f_delta * idx))
    + u32 (fs.f_points / 2 + u32 (fs.f_error * idx)) / fs.f_points)

unfoldable pub get_frequency_step : Frequencies → ℕ
get_frequency_step fs = fs.f_delta
