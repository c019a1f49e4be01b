-- ===== src/Range.antt =====
-- src/runtime/runtime_entry.c: the frequency range of the sweep, its number of points, and the points
-- of the markers. A `freq_t` is a number below 2 ^ 32.
pub mod Bounds
pub mod Markers
use nano_vna_x.Base.{
  ℕ, ◌+◌, ◌-◌, ◌*◌, ◌/◌, ◌%◌, ◌^◌, Bool, true, false, ltb, leb, ◌==◌, ◌&&◌, ◌||◌, not,
  if◌then◌else◌, u32, sub32,
}

abbrev pub frequency_min : ℕ
frequency_min = 600

abbrev pub frequency_max : ℕ
frequency_max = 2700000000

abbrev pub sweep_points_min : ℕ
sweep_points_min = 21

-- ST_START, ST_STOP, ...
pub data FreqType : Type 0 where
  start stop center cw span step var : FreqType

-- frequency0, frequency1, sweep_points, the flag TD_CENTER_SPAN, and var_freq
pub record Range : Type 0 where
  pub frequency0 : ℕ
  pub frequency1 : ℕ
  pub sweep_points : ℕ
  pub center_span : Bool
  pub var_freq : ℕ

unfoldable pub sweep_get_ordered : Range → ℕ × ℕ
sweep_get_ordered r =
    if leb r.frequency0 r.frequency1
    then (r.frequency0, r.frequency1)
    else (r.frequency1, r.frequency0)

-- type < ST_SPAN
abbrev pub below_span : FreqType → Bool
below_span start = true
below_span stop = true
below_span center = true
below_span cw = true
below_span span = false
below_span step = false
below_span var = false

-- The checks before the switch: the type and the frequency that reach it.
unfoldable pub one_step : Range → FreqType → ℕ → FreqType × ℕ
one_step r start freq = (start, freq)
one_step r stop freq = (stop, freq)
one_step r center freq = (center, freq)
one_step r cw freq = (cw, freq)
one_step r span freq = (span, freq)
one_step r step freq =
    if r.center_span
    then (span, u32 (freq * (r.sweep_points - 1)))
    else (stop, u32 (u32 (freq * (r.sweep_points - 1)) + r.frequency0))
one_step r var freq = (var, freq)

abbrev pub is_var : FreqType → Bool
is_var var = true
is_var start = false
is_var stop = false
is_var center = false
is_var cw = false
is_var span = false
is_var step = false

-- The cases of the switch. The Boolean is `enforce_order`.
unfoldable pub set_bounds : Bool → FreqType → ℕ → Range → Range
unfolding sweep_get_ordered
set_bounds enforce start freq r = record r {
  center_span = false;
  frequency0 = freq;
  frequency1 = if enforce && ltb r.frequency1 freq then freq else r.frequency1;
}
set_bounds enforce stop freq r = record r {
  center_span = false;
  frequency1 = freq;
  frequency0 = if enforce && ltb freq r.frequency0 then freq else r.frequency0;
}
set_bounds enforce center freq r =
    let (low, high) = sweep_get_ordered r in
    let half = u32 (sub32 high low + 1) / 2 in
    let below = if ltb (sub32 freq frequency_min) half then sub32 freq frequency_min else half in
    let near = if ltb (sub32 frequency_max freq) below then sub32 frequency_max freq else below in
    record r { center_span = true; frequency0 = sub32 freq near; frequency1 = u32 (freq + near) }
set_bounds enforce span freq r =
    let (low, high) = sweep_get_ordered r in
    let mid = (low + high) / 2 in
    let half = freq / 2 in
    let above = if ltb mid (u32 (frequency_min + half)) then u32 (frequency_min + half) else mid in
    let at = if ltb (sub32 frequency_max half) above then sub32 frequency_max half else above in
    record r { center_span = true; frequency0 = sub32 at half; frequency1 = u32 (at + half) }
set_bounds enforce cw freq r = record r { center_span = true; frequency0 = freq; frequency1 = freq }
set_bounds enforce step freq r = r
set_bounds enforce var freq r = record r { var_freq = freq }

unfoldable pub set_sweep_frequency_internal : FreqType → ℕ → Bool → Range → Range
unfolding one_step set_bounds
set_sweep_frequency_internal type freq enforce r =
    let low = if below_span type && ltb freq frequency_min then frequency_min else freq in
    let (type', freq') = one_step r type low in
    let high = if not (is_var type') && ltb frequency_max freq' then frequency_max else freq' in
    set_bounds enforce type' high r

unfoldable pub set_sweep_frequency : FreqType → ℕ → Range → Range
unfolding set_sweep_frequency_internal
set_sweep_frequency type freq r = set_sweep_frequency_internal type freq true r

-- The number of points that set_sweep_points keeps, for a build of at most `points_max`.
unfoldable pub clamped_points : ℕ → ℕ → ℕ
clamped_points points_max points =
    let high = if ltb points_max points then points_max else points in
    if ltb high sweep_points_min then sweep_points_min else high

unfoldable pub set_sweep_points : ℕ → ℕ → Range → Range
unfolding clamped_points
set_sweep_points points_max points r = record r { sweep_points = clamped_points points_max points }

unfoldable pub need_interpolate : ℕ → ℕ → ℕ → ℕ → ℕ → ℕ → Bool
need_interpolate cal_frequency0 cal_frequency1 cal_sweep_points low high points =
    not (low == cal_frequency0) || not (high == cal_frequency1) || not (points == cal_sweep_points)

-- update_marker_index for one marker that is enabled: the point of its frequency. The quotient is
-- unsigned, since the step is; it is kept as an int32_t. `step` is not 0.
unfoldable pub marker_index : ℕ → ℕ → ℕ → ℕ → ℕ
marker_index low high points frequency =
    let step = if ltb 1 points then sub32 high low / (points - 1) else 1 in
    let index = sub32 frequency low / step in
    let above = if leb (2 ^ 31) index then 0 else index in
    if leb points above then points - 1 else above
