-- ===== src/Commands/Scan.antt =====
-- src/sys/shell_commands.c: what cmd_scan makes of its arguments before it measures.
pub mod Sane
use nano_vna_x.Base.{
  ℕ, zero, suc, ◌+◌, ◌/◌, ◌%◌, ◌^◌, ◌≤◌, ◌<◌, ◌≡◌, refl, subst, Bool, true, false, ◌&&◌, ◌||◌, not,
  List, [], ◌∷◌, ltb, ◌==◌, if◌then◌else◌, arith, Bool-cases, inl, inr,
}
use nano_vna_x.Range.{Range, frequency_max, sweep_get_ordered, need_interpolate}
use nano_vna_x.Text.Number.{my_atoui}

-- What the options of a sweep depend on: SWEEP_BINARY, CALSTAT_APPLY, whether there are delays and an
-- offset, and the range of the calibration.
pub record Setup : Type 0 where
  pub binary : Bool
  pub cal_apply : Bool
  pub delay_s11 : Bool
  pub delay_s21 : Bool
  pub offset_s21 : Bool
  pub cal_frequency0 : ℕ
  pub cal_frequency1 : ℕ
  pub cal_sweep_points : ℕ

-- The sweep that is started: its range, `mask`, the two channels as bits, the corrections, and whether
-- the configuration is restored at the end.
pub record Plan : Type 0 where
  pub low : ℕ
  pub high : ℕ
  pub points : ℕ
  pub mask : ℕ
  pub channels : ℕ
  pub calibration : Bool
  pub edelay_s11 : Bool
  pub edelay_s21 : Bool
  pub s21_offset : Bool
  pub interpolation : Bool
  pub restore_config : Bool

pub data Scan : Type 0 where
  scan_usage start_out_of_range stop_out_of_range range_invalid points_out_of_range : Scan
  planned : Plan → Scan

-- The last part: the mask, and the corrections that it switches off.
unfoldable pub plan_scan : Setup → Range → ℕ → ℕ → ℕ → Bool → ℕ → Plan
unfolding sweep_get_ordered need_interpolate
plan_scan setup r low high points given mask =
    let (original_start, original_stop) = sweep_get_ordered r in
    record {
      low = low;
      high = high;
      points = points;
      mask = mask;
      channels = if given then mask / 2 % 4 else 3;
      calibration = setup.cal_apply && (mask / 8 % 2 == 0);
      edelay_s11 = setup.delay_s11 && (mask / 16 % 2 == 0);
      edelay_s21 = setup.delay_s21 && (mask / 16 % 2 == 0);
      s21_offset = setup.offset_s21 && (mask / 32 % 2 == 0);
      interpolation =
          need_interpolate setup.cal_frequency0 setup.cal_frequency1 setup.cal_sweep_points low high
            points;
      restore_config =
          not (low == original_start)
          || not (high == original_stop)
          || not (points == r.sweep_points);
    }

-- The mask is a uint16_t; cmd_scan_bin adds SCAN_MASK_BINARY.
abbrev pub mask_of : Setup → ℕ → ℕ
mask_of setup value =
    let mask = value % 2 ^ 16 in
    if setup.binary && (mask / 2 ^ 7 % 2 == 0) then mask + 2 ^ 7 else mask

-- The number of points is kept in a uint16_t before it is checked.
unfoldable pub scan_points : Setup → Range → ℕ → ℕ → ℕ → Bool → ℕ → ℕ → Scan
unfolding plan_scan
scan_points setup r points_max low high given mask value =
    let points = value % 2 ^ 16 in
    if points == 0 || ltb points_max points
    then points_out_of_range
    else planned (plan_scan setup r low high points given mask)

-- The arguments behind the range.
unfoldable pub scan_rest : Setup → Range → ℕ → ℕ → ℕ → List (List ℕ) → Scan
unfolding scan_points plan_scan
scan_rest setup r points_max low high [] =
    planned (plan_scan setup r low high r.sweep_points false 0)
scan_rest setup r points_max low high (c ∷ []) =
    scan_points setup r points_max low high false 0 (my_atoui c)
scan_rest setup r points_max low high (c ∷ d ∷ []) =
    scan_points setup r points_max low high true (mask_of setup (my_atoui d)) (my_atoui c)
scan_rest setup r points_max low high (c ∷ d ∷ e ∷ rest) = scan_usage

abbrev pub is_bad_range : ℕ → ℕ → Bool
is_bad_range low high =
    low == 0 || high == 0 || ltb high low || ltb low 50000 || ltb frequency_max high

unfoldable pub scan_range : Setup → Range → ℕ → ℕ → ℕ → List (List ℕ) → Scan
unfolding scan_rest
scan_range setup r points_max low high rest =
    let measured = scan_rest setup r points_max low high rest in
    if is_bad_range low high
    then if ltb low 50000 || ltb frequency_max low
      then start_out_of_range
      else if ltb high 50000 || ltb frequency_max high
      then stop_out_of_range
      else range_invalid
    else measured

-- The number of arguments is checked first.
unfoldable pub cmd_scan : Setup → ℕ → List (List ℕ) → Range → Scan
unfolding scan_range
cmd_scan setup points_max [] r = scan_usage
cmd_scan setup points_max (a ∷ []) r = scan_usage
cmd_scan setup points_max (a ∷ b ∷ []) r =
    scan_range setup r points_max (my_atoui a) (my_atoui b) []
cmd_scan setup points_max (a ∷ b ∷ c ∷ []) r =
    scan_range setup r points_max (my_atoui a) (my_atoui b) (c ∷ [])
cmd_scan setup points_max (a ∷ b ∷ c ∷ d ∷ []) r =
    scan_range setup r points_max (my_atoui a) (my_atoui b) (c ∷ d ∷ [])
cmd_scan setup points_max (a ∷ b ∷ c ∷ d ∷ e ∷ rest) r = scan_usage
