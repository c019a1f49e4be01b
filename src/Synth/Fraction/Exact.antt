-- ===== src/Synth/Fraction/Exact.antt =====
-- When the fraction is exact.
use nano_vna_x.Base.{
  ℕ, ◌+◌, ◌*◌, ◌≤◌, ◌<◌, ◌≡◌, ◌⊎◌, inl, inr, ap, sym, ◌∙◌, some, arith, ◌^◌, ltb, ◌==◌, Bool-cases,
}
use native.Mathlib.Nat.{mul_comm, mul_assoc, mul-add}
use nano_vna_x.Synth.Fraction.{max_denominator, approximate_fraction}
use nano_vna_x.Synth.Fraction.Track.{IsClose}
use nano_vna_x.Synth.Fraction.Close.{approximate_fraction-ReturnsClose}

mul_cancel : (a b c : ℕ) → 0 < a → a * b ≡ a * c → b ≡ c
mul_cancel a b c h e = grind arith

mul_mono : (a b c : ℕ) → b ≤ c → a * b ≤ a * c
mul_mono a b c h = grind arith

mul_mono_left : (a b c : ℕ) → a ≤ b → a * c ≤ b * c
mul_mono_left a b c h = grind arith

lt_eq_gt : (a b : ℕ) → (a < b) ⊎ (a ≡ b) ⊎ (b < a)
lt_eq_gt a b = elim (Bool-cases (ltb a b)) [
  | inl lt ↦ inl (ground arith)
  | inr ge ↦ elim (Bool-cases (a == b)) [
    | inl eq ↦ inr (inl (ground arith))
    | inr ne ↦ inr (inr (ground arith))
  ]
]

-- Two fractions x / y and p / q that differ, differ by a whole part of the product.
apart : (d x y : ℕ) → x < y → d * x + d ≤ d * y
apart d x y h = omega (arith, mul_mono d (x + 1) y (omega arith), mul-add d x 1)

-- A close fraction is exact where any fraction with a small denominator is.
close_exact :
    (n d p q a b : ℕ)
    → IsClose n d p q
    → 0 < b
    → b ≤ max_denominator
    → n * b ≡ d * a
    → n * q ≡ d * p
close_exact n d p q a b (e, below, above, small) some_b small_b same =
    compared (lt_eq_gt (a * q) (p * b))
  where
    left : b * (n * q) ≡ d * (a * q)
    left = sym (mul_assoc b n q) ∙ ap (λ t. t * q) (mul_comm b n ∙ same) ∙ mul_assoc d a q

    right : b * (d * p) ≡ d * (p * b)
    right = mul_comm b (d * p) ∙ mul_assoc d p b

    missed : b * e < d
    missed = omega (arith, mul_mono_left b max_denominator e small_b, small)

    compared : (a * q < p * b) ⊎ (a * q ≡ p * b) ⊎ (p * b < a * q) → n * q ≡ d * p
    compared (inl lt) = absurd (
        omega (
          arith,
          left,
          right,
          missed,
          apart d (a * q) (p * b) lt,
          mul_mono b (d * p) (n * q + e) above,
          mul-add b (n * q) e,
        ))
    compared (inr (inl eq)) =
        mul_cancel b (n * q) (d * p) some_b (left ∙ ap (λ t. d * t) eq ∙ sym right)
    compared (inr (inr gt)) = absurd (
        omega (
          arith,
          left,
          right,
          missed,
          apart d (p * b) (a * q) gt,
          mul_mono b (n * q) (d * p + e) below,
          mul-add b (d * p) e,
        ))

-- A fraction that is equal to one whose denominator fits the registers is not changed in value.
pub approximate_fraction-exact :
    (n d a b : ℕ)
    → n < 2 ^ 32
    → d < 2 ^ 32
    → 0 < d
    → 0 < b
    → b ≤ max_denominator
    → n * b ≡ d * a
    → (p : ℕ) × (q : ℕ) × (approximate_fraction n d ≡ some (p, q)) × (0 < q) × (n * q ≡ d * p)
approximate_fraction-exact n d a b fits_n fits_d some_d some_b small_b same =
    let (p, q, e, some_q, small_q, close) =
      approximate_fraction-ReturnsClose n d fits_n fits_d some_d in
    (p, q, e, some_q, close_exact n d p q a b close some_b small_b same)
