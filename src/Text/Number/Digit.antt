-- ===== src/Text/Number/Digit.antt =====
-- src/core/common.c: which characters `my_atoui` takes for digits.
use nano_vna_x.Base.{
  ℕ, ◌+◌, ◌-◌, ◌%◌, ◌<◌, ◌≡◌, refl, true, ltb, leb, ◌==◌, ==_iff, ◌&&◌, if◌then◌else◌, holds_below,
  holds_below_lem,
}
use nano_vna_x.Text.Number.{digit_value}
use nano_vna_x.Printf.Long.{digit_char}

-- The value of a character, by ranges: '0' to '?' (so ':' to '?' are the digits 10 to 15), 'A' to
-- 'F', 'W' to '`' (0 to 9, since the case bit is cleared after '0' is subtracted), 'a' to 'f'.
abbrev pub char_digit : ℕ → ℕ
char_digit b =
    if leb b'0' b && leb b b'?'
    then b - b'0'
    else if leb b'A' b && leb b b'F'
    then b - b'A' + 10
    else if leb b'W' b && leb b b'`'
    then b - b'W'
    else if leb b'a' b && leb b b'f'
    then b - b'a' + 10
    else 16

-- Of the other characters none counts as a digit in any radix up to 16.
digit_table :
    holds_below 256 (λ b. (if ltb (digit_value b) 16 then digit_value b else 16) == char_digit b)
    ≡ true
unfolding holds_below digit_value
digit_table = refl

pub digit_value_lem :
    (b : ℕ) → b < 256 → (if ltb (digit_value b) 16 then digit_value b else 16) ≡ char_digit b
digit_value_lem b h = (==_iff _ _).0 (holds_below_lem _ 256 digit_table b h)

print_table : holds_below 16 (λ c. digit_value (digit_char (c % 256)) == c) ≡ true
unfolding holds_below digit_value
print_table = refl

-- A digit as `long_to_string` writes it is read back.
pub digit_value-digit_char : (c : ℕ) → c < 16 → digit_value (digit_char (c % 256)) ≡ c
digit_value-digit_char c h = (==_iff _ _).0 (holds_below_lem _ 16 print_table c h)
