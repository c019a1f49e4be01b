-- ===== src/Text/Number/RoundTrip.antt =====
-- What chprintf.c prints, `my_atoui` and `my_atoi` of common.c read back.
use native.Mathlib.Nat.{pow-suc, pow-zero, div-lt_iff_lt-mul, div-add-mod'}
use nano_vna_x.Base.{
  Every, ◌≢◌, ap, pos, negsuc, int32_of, ◌∙◌, ℕ, zero, suc, ◌+◌, ◌-◌, ◌*◌, ◌/◌, ◌%◌, ◌^◌, ◌≤◌, ◌<◌,
  ◌≡◌, refl, ◌∙◌, inl, inr, List, [], ◌∷◌, arith, true, ltb, ◌||◌, Bool-cases, u32, sub32,
}
use nano_vna_x.Text.Number.{
  my_atoi, my_atoui, atoi_loop, atoui_loop, digit_value, radix_of, char_at,
}
use nano_vna_x.Text.Number.Digit.{digit_value-digit_char}
use nano_vna_x.Printf.Long.{digit_char, emit_digits, long_to_string}
use nano_vna_x.Printf.Long.Laws.{IsDigitChar, long_to_string-Every}

-- A digit of the radix is taken up, and the value stays below 2 ^ 32.
atoui_loop-digit :
    (r v c : ℕ) (rest : List ℕ)
    → r ≤ 16
    → c < r
    → v * r + c < 2 ^ 32
    → atoui_loop r v (digit_char (c % 256) ∷ rest) ≡ atoui_loop r (v * r + c) rest
unfolding atoui_loop
atoui_loop-digit r v c rest small h fits = ground (arith, digit_value-digit_char c)

-- The last digit of a number is taken up after the others.
atoui_loop-last :
    (r num : ℕ) (rest : List ℕ)
    → 2 ≤ r
    → r ≤ 16
    → num < 2 ^ 32
    → atoui_loop r (num / r) (digit_char (num % r % 256) ∷ rest) ≡ atoui_loop r num rest
atoui_loop-last r num rest two small fits =
    atoui_loop-digit r (num / r) (num % r) rest small (omega arith)
      (omega (arith, div-add-mod' num r))
    ∙ ap (λ v. atoui_loop r v rest) (div-add-mod' num r)

quotient-lt : (r num a : ℕ) → 2 ≤ r → num < 2 ^ suc a → num / r < 2 ^ a
quotient-lt r num a two h = (div-lt_iff_lt-mul (omega arith)).1 (grind (arith, pow-suc))

-- What the next round needs: a bound on the number, and rounds for it.
abbrev Next : ℕ → ℕ → ℕ → ℕ → Type 0
Next f num r p = (a : ℕ) × (num / r < 2 ^ a) × (a + (p - 1) ≤ f) × (0 < f)

Next-round :
    (f a num r p : ℕ)
    → 2 ≤ r
    → num < 2 ^ a
    → a + p ≤ suc f
    → (ltb 1 p || ltb 0 (num / r)) ≡ true
    → Next f num r p
Next-round f zero num r zero two below fuel more = absurd (ground (arith, pow-zero 2))
Next-round f (suc zero) num r zero two below fuel more =
    absurd (ground (arith, quotient-lt r num 0 two below, pow-zero 2))
Next-round f (suc a) num r zero two below fuel more =
    (a, quotient-lt r num a two below, omega arith, omega arith)
Next-round f zero num r (suc p) two below fuel more =
    (0, ground (arith, pow-zero 2), omega arith, ground (arith, pow-zero 2))
Next-round f (suc a) num r (suc p) two below fuel more =
    (suc a, quotient-le, omega arith, omega arith)
  where
    quotient-le : num / r < 2 ^ suc a
    quotient-le = omega (arith, quotient-lt r num a two below, pow-suc 2 a)

-- With rounds enough, reading from the written digits on is reading from the number on.
atoui_loop-emit_digits :
    (f a num r p : ℕ) (acc : List ℕ)
    → 2 ≤ r
    → r ≤ 16
    → num < 2 ^ 32
    → num < 2 ^ a
    → a + p ≤ f
    → 0 < f
    → atoui_loop r 0 (emit_digits f num r p acc) ≡ atoui_loop r num acc
unfolding emit_digits
atoui_loop-emit_digits zero a num r p acc two small fits below fuel left = absurd (omega arith)
atoui_loop-emit_digits (suc f) a num r p acc two small fits below fuel left =
    elim (Bool-cases (ltb 1 p || ltb 0 (num / r))) [
      | inl e ↦ rw e (
          let (a', below', fuel', pos') = Next-round f a num r p two below fuel e in
          atoui_loop-emit_digits f a' (num / r) r (p - 1) (digit_char (num % r % 256) ∷ acc) two
            small (omega arith) below' fuel' pos'
          ∙ atoui_loop-last r num acc two small fits)
      | inr e ↦ rw e (
          ap (λ v. atoui_loop r v (digit_char (num % r % 256) ∷ acc)) (ground arith)
          ∙ atoui_loop-last r num acc two small fits)
    ]

-- In every radix from 2 to 16 and at every precision, the loop of `my_atoui` reads back the 32-bit
-- number that `long_to_string_with_divisor` has written.
pub atoui_loop-long_to_string :
    (num r p : ℕ) → 2 ≤ r → r ≤ 16 → num < 2 ^ 32 → atoui_loop r 0 (long_to_string num r p) ≡ num
unfolding long_to_string atoui_loop
atoui_loop-long_to_string num r p two small fits =
    atoui_loop-emit_digits (32 + p) 32 num r p [] two small fits fits (omega arith) (omega arith)

-- No digit character is the sign or names a radix.
module _ (p : List ℕ) (digits : Every (IsDigitChar 10) p) where
  pub char_at-not_marks :
      (i : ℕ) → (char_at p i ≢ b'+') × (char_at p i ≢ b'-') × (radix_of (char_at p i) ≡ 10)
  unfolding radix_of
  char_at-not_marks i = marks p i digits
    where
      marks :
          (q : List ℕ) (i : ℕ)
          → Every (IsDigitChar 10) q
          → (char_at q i ≢ b'+') × (char_at q i ≢ b'-') × (radix_of (char_at q i) ≡ 10)
      marks [] i h = (omega arith, omega arith, refl)
      marks (b ∷ q) zero h = ground arith
      marks (b ∷ q) (suc i) h = marks q i h.1

-- The decimal text of a 32-bit number, as `%d` prints it, is read back by `my_atoui`.
pub my_atoui-long_to_string : (num p : ℕ) → num < 2 ^ 32 → my_atoui (long_to_string num 10 p) ≡ num
unfolding my_atoui
my_atoui-long_to_string num p fits = ground (
  arith,
  char_at-not_marks (long_to_string num 10 p)
      (long_to_string-Every num 10 p (omega arith) (omega arith)) 0,
  char_at-not_marks (long_to_string num 10 p)
      (long_to_string-Every num 10 p (omega arith) (omega arith)) 1,
  atoui_loop-long_to_string num 10 p (omega arith) (omega arith) fits,
)

-- On decimal digits the two loops agree.
atoi_loop-eq-atoui_loop :
    (p : List ℕ) (v : ℕ) → Every (IsDigitChar 10) p → atoi_loop v p ≡ atoui_loop 10 v p
unfolding atoi_loop atoui_loop digit_value
atoi_loop-eq-atoui_loop [] v h = refl
atoi_loop-eq-atoui_loop (b ∷ p) v h =
    ground (arith, atoi_loop-eq-atoui_loop p (u32 (v * 10 + sub32 b b'0')) h.1)

atoi_loop-decimal : (num p : ℕ) → num < 2 ^ 32 → atoi_loop 0 (long_to_string num 10 p) ≡ num
atoi_loop-decimal num p fits =
    atoi_loop-eq-atoui_loop _ 0 (long_to_string-Every num 10 p (omega arith) (omega arith))
    ∙ atoui_loop-long_to_string num 10 p (omega arith) (omega arith) fits

first_not_mark :
    (num p : ℕ)
    → (char_at (long_to_string num 10 p) 0 ≢ b'+') × (char_at (long_to_string num 10 p) 0 ≢ b'-')
first_not_mark num p =
    let (plus, minus, _) =
      char_at-not_marks _ (long_to_string-Every num 10 p (omega arith) (omega arith)) 0 in
    (plus, minus)

-- The decimal text of an `int32_t`, as `%d` prints it, is read back by `my_atoi`: a number below
-- 2 ^ 31 from its digits, and one from -(2 ^ 31) to -1 from '-' and the digits of its size.
pub my_atoi-long_to_string :
    (num p : ℕ)
    → num < 2 ^ 31
    → (int32_of (my_atoi (long_to_string num 10 p)) ≡ pos num)
      × (int32_of (my_atoi (b'-' ∷ long_to_string (num + 1) 10 p)) ≡ negsuc num)
unfolding my_atoi
my_atoi-long_to_string num p h = (
  ground (arith, first_not_mark num p, atoi_loop-decimal num p (omega arith)),
  ground (arith, first_not_mark (num + 1) p, atoi_loop-decimal (num + 1) p (omega arith)),
)
