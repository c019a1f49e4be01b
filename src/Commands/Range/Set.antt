-- ===== src/Commands/Range/Set.antt =====
-- What a host that sends numbers gets, and what it cannot set.
use nano_vna_x.Base.{ℕ, ◌≤◌, ◌<◌, ◌^◌, ◌≡◌, refl, true, false, some, List, [], ◌∷◌, arith}
use nano_vna_x.Commands.{quiet}
use nano_vna_x.Commands.Range.{sweep_cmd, cmd_sweep, sweep_by_value, sweep_by_type, is_outside}
use nano_vna_x.Printf.Long.{long_to_string}
use nano_vna_x.Range.{Range, span, frequency_max, set_sweep_frequency}
use nano_vna_x.Text.Number.{my_atoui, digit_value}
use nano_vna_x.Text.Number.RoundTrip.{my_atoui-long_to_string}
use nano_vna_x.Text.Options.{get_str_index}

-- The text of a number, as the shell prints it.
abbrev pub text : ℕ → List ℕ
text n = long_to_string n 10 0

sweep_by_value-sets :
    (points_max a b points : ℕ) (r : Range)
    → 50000 ≤ a
    → a ≤ frequency_max
    → 50000 ≤ b
    → b ≤ frequency_max
    → 21 ≤ points
    → points ≤ points_max
    → points_max < 2 ^ 16
    → sweep_by_value points_max a b points r ≡ (
      quiet,
      record r { frequency0 = a; frequency1 = b; sweep_points = points; center_span = false },
    )
unfolding sweep_by_value
sweep_by_value-sets points_max a b points r ha ha' hb hb' hp hp' hm = ground arith

-- A host that sends two frequencies between 50 kHz and the limit, in either order, and a number of
-- points that the build has, as decimal numbers, gets a range of just these.
pub cmd_sweep-text :
    (points_max a b points : ℕ) (r : Range)
    → 50000 ≤ a
    → a ≤ frequency_max
    → 50000 ≤ b
    → b ≤ frequency_max
    → 21 ≤ points
    → points ≤ points_max
    → points_max < 2 ^ 16
    → cmd_sweep points_max (text a ∷ text b ∷ text points ∷ []) r ≡ (
      quiet,
      record r { frequency0 = a; frequency1 = b; sweep_points = points; center_span = false },
    )
unfolding cmd_sweep
cmd_sweep-text points_max a b points r ha ha' hb hb' hp hp' hm =
    rw
      (
        my_atoui-long_to_string a 0 (omega arith),
        my_atoui-long_to_string b 0 (omega arith),
        my_atoui-long_to_string points 0 (omega arith),
      )
      (sweep_by_value-sets points_max a b points r ha ha' hb hb' hp hp' hm)

-- "span" and "cw"
abbrev pub span_word : List ℕ
span_word = b's' ∷ b'p' ∷ b'a' ∷ b'n' ∷ []

abbrev pub cw_word : List ℕ
cw_word = b'c' ∷ b'w' ∷ []

my_atoui-words : (my_atoui span_word ≡ 0) × (my_atoui cw_word ≡ 0)
unfolding my_atoui digit_value
my_atoui-words = (refl, refl)

get_str_index-words :
    (get_str_index span_word sweep_cmd ≡ some 3) × (get_str_index cw_word sweep_cmd ≡ some 4)
unfolding get_str_index
get_str_index-words = (refl, refl)

-- "sweep span" with a value between 50 kHz and the limit sets both ends of the range to it, and
-- "sweep cw" sets its span.
pub cmd_sweep_crossed :
    (points_max value : ℕ) (r : Range)
    → 50000 ≤ value
    → value ≤ frequency_max
    → (cmd_sweep points_max (span_word ∷ text value ∷ []) r
        ≡ (quiet, record r { frequency0 = value; frequency1 = value; center_span = true }))
      × (cmd_sweep points_max (cw_word ∷ text value ∷ []) r
          ≡ (quiet, set_sweep_frequency span value r))
unfolding cmd_sweep sweep_by_type set_sweep_frequency
cmd_sweep_crossed points_max value r low high =
    let e = my_atoui-long_to_string value 0 (omega arith) in
    let inside : is_outside value ≡ false = ground arith in
    let (span_number, cw_number) = my_atoui-words in
    let (span_index, cw_index) = get_str_index-words in
    (
      rw (span_number, span_index, e, inside) (ground arith),
      rw (cw_number, cw_index, e, inside) refl,
    )
