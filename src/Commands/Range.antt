-- ===== src/Commands/Range.antt =====
-- src/sys/shell_commands.c: cmd_sweep.
pub mod Set
use nano_vna_x.Base.{
  ℕ, zero, suc, ◌+◌, ◌%◌, ◌^◌, Bool, true, false, ◌&&◌, ◌||◌, not, Option, none, some, List, [],
  ◌∷◌, ltb, ◌==◌, if◌then◌else◌,
}
use nano_vna_x.Commands.{Reply, quiet, report, usage, out_of_range}
use nano_vna_x.Range.{
  Range, FreqType, start, stop, center, cw, span, step, var, frequency_max,
  set_sweep_frequency_internal, set_sweep_points,
}
use nano_vna_x.Text.Number.{my_atoui}
use nano_vna_x.Text.Options.{get_str_index}

-- "start|stop|center|span|cw|step|var"
abbrev pub sweep_cmd : List ℕ
sweep_cmd =
    b's' ∷ b't' ∷ b'a' ∷ b'r' ∷ b't' ∷ b'|' ∷ b's' ∷ b't' ∷ b'o' ∷ b'p' ∷ b'|' ∷ b'c' ∷ b'e' ∷ b'n'
    ∷ b't' ∷ b'e' ∷ b'r' ∷ b'|' ∷ b's' ∷ b'p' ∷ b'a' ∷ b'n' ∷ b'|' ∷ b'c' ∷ b'w' ∷ b'|' ∷ b's'
    ∷ b't' ∷ b'e' ∷ b'p' ∷ b'|' ∷ b'v' ∷ b'a' ∷ b'r' ∷ []

-- The type that an index into it is taken for: the types count ST_START, ST_STOP, ST_CENTER, ST_CW,
-- ST_SPAN, ST_STEP, ST_VAR.
abbrev pub type_of : ℕ → FreqType
type_of i =
    if i == 0
    then start
    else if i == 1
    then stop
    else if i == 2
    then center
    else if i == 3
    then cw
    else if i == 4
    then span
    else if i == 5
    then step
    else var

-- The limits that the commands check.
abbrev pub is_outside : ℕ → Bool
is_outside value = ltb value 50000 || ltb frequency_max value

abbrev pub enforces : FreqType → Bool
enforces start = false
enforces stop = false
enforces center = true
enforces cw = true
enforces span = true
enforces step = true
enforces var = true

-- sweep {start|stop|...} {freq(Hz)}
unfoldable pub sweep_by_type : Option ℕ → ℕ → Range → Reply × Range
unfolding set_sweep_frequency_internal
sweep_by_type none value r = (usage, r)
sweep_by_type (some i) value r =
    if is_outside value
    then (out_of_range, r)
    else (quiet, set_sweep_frequency_internal (type_of i) value (enforces (type_of i)) r)

-- sweep {start(Hz)} [stop(Hz)] [points], where a value of 0 sets nothing.
unfoldable pub sweep_by_value : ℕ → ℕ → ℕ → ℕ → Range → Reply × Range
unfolding set_sweep_frequency_internal set_sweep_points
sweep_by_value points_max value0 value1 value2 r =
    if not (value0 == 0) && is_outside value0
    then (out_of_range, r)
    else if not (value1 == 0) && is_outside value1
    then (out_of_range, r)
    else let r = if value0 == 0 then r else set_sweep_frequency_internal start value0 false r in
      let r = if value1 == 0 then r else set_sweep_frequency_internal stop value1 false r in
      (quiet, if value2 == 0 then r else set_sweep_points points_max (value2 % 2 ^ 16) r)

unfoldable pub cmd_sweep : ℕ → List (List ℕ) → Range → Reply × Range
unfolding sweep_by_type sweep_by_value
cmd_sweep points_max [] r = (report, r)
cmd_sweep points_max (a ∷ []) r = sweep_by_value points_max (my_atoui a) 0 0 r
cmd_sweep points_max (a ∷ b ∷ []) r =
    if my_atoui a == 0
    then sweep_by_type (get_str_index a sweep_cmd) (my_atoui b) r
    else sweep_by_value points_max (my_atoui a) (my_atoui b) 0 r
cmd_sweep points_max (a ∷ b ∷ c ∷ []) r =
    sweep_by_value points_max (my_atoui a) (my_atoui b) (my_atoui c) r
cmd_sweep points_max (a ∷ b ∷ c ∷ d ∷ rest) r = (usage, r)
