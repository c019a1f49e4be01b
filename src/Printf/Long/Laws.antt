-- ===== src/Printf/Long/Laws.antt =====
-- The digits that `long_to_string` writes: how many, which, and that enough rounds are run.
use native.Mathlib.Nat.{pow-suc, pow-zero, div-lt_iff_lt-mul, pow-le-pow_left}
use nano_vna_x.Base.{
  Every, ℕ, zero, suc, ◌+◌, ◌-◌, ◌/◌, ◌%◌, ◌^◌, ◌≤◌, ◌<◌, ◌≡◌, ◌⊎◌, inl, inr, List, [], ◌∷◌, length,
  arith, false, ltb, Bool-cases, ◌||◌,
}
use nano_vna_x.Printf.Long.{digit_char, emit_digits, long_to_string, max_filler}

-- A character that is a digit in the radix: 0 to 9, or A on.
abbrev pub IsDigitChar : ℕ → ℕ → Type 0
IsDigitChar radix b =
    ((b'0' ≤ b) × (b ≤ b'9') × (b < b'0' + radix)) ⊎ ((b'A' ≤ b) × (b + 10 < b'A' + radix))

digit_char-IsDigitChar :
    (c radix : ℕ) → c < radix → radix ≤ 16 → IsDigitChar radix (digit_char (c % 256))
digit_char-IsDigitChar c radix h k = ground arith

emit_digits-Every :
    (f num radix p : ℕ) (acc : List ℕ)
    → 0 < radix
    → radix ≤ 16
    → Every (IsDigitChar radix) acc
    → Every (IsDigitChar radix) (emit_digits f num radix p acc)
unfolding emit_digits
emit_digits-Every zero num radix p acc pos small h = h
emit_digits-Every (suc f) num radix p acc pos small h =
    elim (Bool-cases (ltb 1 p || ltb 0 (num / radix))) [
      | inl e ↦ rw e (emit_digits-Every f (num / radix) radix (p - 1) _ pos small (d, h))
      | inr e ↦ rw e (d, h)
    ]
  where
    d : IsDigitChar radix (digit_char (num % radix % 256))
    d = digit_char-IsDigitChar (num % radix) radix (omega arith) small

quotient-lt-pow : (num r k : ℕ) → 0 < r → num < r ^ suc k → num / r < r ^ k
quotient-lt-pow num r k pos h = (div-lt_iff_lt-mul pos).1 (rw (← pow-suc) h)

-- The last round has no digit left, and a precision that is used up.
last_round : (num r p : ℕ) → 2 ≤ r → num < r ^ 1 → p ≤ 1 → (ltb 1 p || ltb 0 (num / r)) ≡ false
last_round num r p two h le = ground (arith, quotient-lt-pow num r 0 (omega arith) h, pow-zero r)

-- A number of at most `k + 1` digits, at a precision of at most `k + 1`, takes that many bytes.
length-emit_digits :
    (f num r p k : ℕ) (acc : List ℕ)
    → 2 ≤ r
    → num < r ^ suc k
    → p ≤ suc k
    → length (emit_digits f num r p acc) ≤ suc k + length acc
unfolding emit_digits
length-emit_digits zero num r p k acc two h le = omega arith
length-emit_digits (suc f) num r p zero acc two h le =
    rw (last_round num r p two h le) (omega arith)
length-emit_digits (suc f) num r p (suc k) acc two h le =
    elim (Bool-cases (ltb 1 p || ltb 0 (num / r))) [
      | inl e ↦ rw e (
          omega (
            arith,
            length-emit_digits f (num / r) r (p - 1) k (digit_char (num % r % 256) ∷ acc) two
                (quotient-lt-pow num r (suc k) (omega arith) h) (omega arith),
          ))
      | inr e ↦ rw e (omega arith)
    ]

-- A 32-bit number in a radix of at least 8, at a precision of at most 11, fits the buffer that
-- the digits are written into from its end.
pub long_to_string_fits :
    (num radix precision : ℕ)
    → num < 2 ^ 32
    → 8 ≤ radix
    → precision ≤ max_filler
    → length (long_to_string num radix precision) ≤ max_filler
unfolding long_to_string
long_to_string_fits num radix precision h r p =
    length-emit_digits (32 + precision) num radix precision 10 [] (omega arith)
      (omega (arith, pow-le-pow_left r 11)) p

pub long_to_string-Every :
    (num radix precision : ℕ)
    → 0 < radix
    → radix ≤ 16
    → Every (IsDigitChar radix) (long_to_string num radix precision)
unfolding long_to_string
long_to_string-Every num radix precision pos small =
    emit_digits-Every (32 + precision) num radix precision [] pos small tt
