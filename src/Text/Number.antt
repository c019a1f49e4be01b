-- ===== src/Text/Number.antt =====
-- src/core/common.c: `my_atoi` and `my_atoui`. The loops end at the NUL, which is no digit: there
-- the list is empty. Arithmetic is modulo 2 ^ 32, and an `int32_t` is its bit pattern.
pub mod Digit
pub mod RoundTrip
use Prim.Native.Nat.{bit_and}
use nano_vna_x.Base.{
  ℕ, ◌+◌, ◌-◌, ◌*◌, List, [], ◌∷◌, get_or, drop, ltb, ◌==◌, if◌then◌else◌, u32, sub32,
}

-- p[i], with the NUL where the text ends
abbrev pub char_at : List ℕ → ℕ → ℕ
char_at p i = get_or p i 0

-- while ((c = *p++ - '0') < 10) value = value * 10 + c;
pub atoi_loop : ℕ → List ℕ → ℕ
atoi_loop value [] = value
atoi_loop value (b ∷ p) =
    let c = sub32 b b'0' in
    let rest = atoi_loop (u32 (value * 10 + c)) p in if ltb c 10 then rest else value

unfoldable pub my_atoi : List ℕ → ℕ
unfolding atoi_loop
my_atoi p =
    let neg = char_at p 0 == b'-' in
    let p₁ = if neg then drop 1 p else p in
    let p₂ = if char_at p₁ 0 == b'+' then drop 1 p₁ else p₁ in
    let value = atoi_loop 0 p₂ in if neg then sub32 0 value else value

-- The value of a character as a digit: `c & (~0x20)` clears the bit that tells letters' case.
unfoldable pub digit_value : ℕ → ℕ
digit_value b =
    let c = sub32 b b'0' in
    if ltb c (b'A' - b'0') then c else u32 (sub32 (bit_and c 0xffffffdf) (b'A' - b'0') + 10)

-- The loop of `my_atoui` behind the label `calculate`.
pub atoui_loop : ℕ → ℕ → List ℕ → ℕ
atoui_loop radix value [] = value
atoui_loop radix value (b ∷ p) =
    let c = digit_value b in
    let rest = atoui_loop radix (u32 (value * radix + c)) p in if ltb c radix then rest else value

-- The radix that `p[1]` names after a leading '0'; the default jumps to `calculate`.
pub radix_of : ℕ → ℕ
radix_of c = if c == b'x' then 16 else if c == b'o' then 8 else if c == b'b' then 2 else 10

unfoldable pub my_atoui : List ℕ → ℕ
unfolding atoui_loop radix_of
my_atoui p =
    let p₁ = if char_at p 0 == b'+' then drop 1 p else p in
    let radix = if char_at p₁ 0 == b'0' then radix_of (char_at p₁ 1) else 10 in
    atoui_loop radix 0 (if radix == 10 then p₁ else drop 2 p₁)
