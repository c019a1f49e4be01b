-- ===== src/Printf/Long.antt =====
-- src/sys/chprintf.c: `long_to_string_with_divisor`.
pub mod Laws
use nano_vna_x.Base.{ℕ, zero, suc, ◌+◌, ◌-◌, ◌/◌, ◌%◌, List, [], ◌∷◌, ltb, if◌then◌else◌, ◌||◌}

-- MAX_FILLER: the bytes of the buffer that the digits are written into, from its end.
abbrev pub max_filler : ℕ
max_filler = 11

-- c + ((c > 9) ? ('A' - 10) : '0') of a `uint8_t`
abbrev pub digit_char : ℕ → ℕ
digit_char c = (c + (if ltb 9 c then b'A' - 10 else b'0')) % 256

-- The `do ... while` loop. `num` is converted to unsigned by `num % radix`, and it falls with
-- each round; `acc` holds the bytes from `q` to the end of the buffer. `precision` counts down to 1.
unfoldable pub emit_digits : ℕ → ℕ → ℕ → ℕ → List ℕ → List ℕ
emit_digits zero num radix precision acc = acc
emit_digits (suc fuel) num radix precision acc =
    let acc' = digit_char (num % radix % 256) ∷ acc in
    let rest = emit_digits fuel (num / radix) radix (precision - 1) acc' in
    if ltb 1 precision || ltb 0 (num / radix) then rest else acc'

-- Each round halves the number at least or uses up one digit of the precision.
unfoldable pub long_to_string : ℕ → ℕ → ℕ → List ℕ
unfolding emit_digits
long_to_string num radix precision = emit_digits (32 + precision) num radix precision []
