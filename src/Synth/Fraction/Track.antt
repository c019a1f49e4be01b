-- ===== src/Synth/Fraction/Track.antt =====
-- What the loop of `approximate_fraction` keeps.
use nano_vna_x.Base.{ℕ, ◌+◌, ◌*◌, ◌/◌, ◌%◌, ◌≤◌, ◌<◌, ◌≡◌, ap, sym, ◌∙◌, ◌⊎◌, inl, inr, arith}
use native.Mathlib.Nat.{mul_comm, mul_assoc, mul_right_comm, mul-add, add-mul}
use nano_vna_x.Synth.Fraction.{max_denominator}

pub div_mod : (a b : ℕ) → a / b * b + a % b ≡ a
div_mod a b = grind arith

pub mod_lt : (a b : ℕ) → 0 < b → a % b < b
mod_lt a b h = grind arith

swap3 : (a b c : ℕ) → a * b * c ≡ c * b * a
swap3 a b c = mul_right_comm a b c ∙ ap (λ t. t * b) (mul_comm a c) ∙ mul_right_comm c a b

-- A round of Euclid's algorithm keeps a sum of multiples.
regroup_round :
    (x y num denom : ℕ) → x * num + y * denom ≡ (y + num / denom * x) * denom + x * (num % denom)
regroup_round x y num denom =
    let a = num / denom in
    let b = num % denom in
    let whole : x * num ≡ x * (a * denom) + x * b =
      ap (λ t. x * t) (sym (div_mod num denom)) ∙ mul-add x (a * denom) b in
    let turned : x * (a * denom) ≡ a * x * denom =
      sym (mul_assoc x a denom) ∙ ap (λ t. t * denom) (mul_comm x a) in
    omega (arith, whole, turned, add-mul y (a * x) denom)

-- What two neighbouring fractions miss.
cross :
    (p0 q0 p1 q1 num denom : ℕ)
    → p0 * q1 ≡ p1 * q0 + 1
    → (p1 * num + p0 * denom) * q1 ≡ (q1 * num + q0 * denom) * p1 + denom
cross p0 q0 p1 q1 num denom e =
    let scaled : p0 * q1 * denom ≡ p1 * q0 * denom + 1 * denom =
      ap (λ t. t * denom) e ∙ add-mul (p1 * q0) 1 denom in
    omega (
      arith,
      scaled,
      add-mul (p1 * num) (p0 * denom) q1,
      add-mul (q1 * num) (q0 * denom) p1,
      swap3 p1 num q1,
      mul_right_comm p0 denom q1,
      swap3 q0 denom p1,
      mul_right_comm p1 denom q0,
    )

-- The determinant changes its sign in a round.
det_round :
    (p0 q0 p1 q1 a : ℕ) → p0 * q1 ≡ p1 * q0 + 1 → (q0 + a * q1) * p1 + 1 ≡ q1 * (p0 + a * p1)
det_round p0 q0 p1 q1 a e = omega (
  arith,
  e,
  add-mul q0 (a * q1) p1,
  mul-add q1 p0 (a * p1),
  mul_comm q0 p1,
  mul_comm q1 p0,
  turned,
)
  where
    turned : q1 * (a * p1) ≡ a * q1 * p1
    turned = sym (mul_assoc q1 a p1) ∙ ap (λ t. t * p1) (mul_comm q1 a)

-- |N / D - p / q| < 1 / (max_denominator * q), as a distance of products.
abbrev pub IsClose : ℕ → ℕ → ℕ → ℕ → Type 0
IsClose n d p q = (e : ℕ) × (n * q ≤ d * p + e) × (d * p ≤ n * q + e) × (max_denominator * e < d)

-- p0 / q0 and p1 / q1 are neighbours, on either side.
abbrev pub Neighbours : ℕ → ℕ → ℕ → ℕ → Type 0
Neighbours p0 q0 p1 q1 = (p0 * q1 ≡ p1 * q0 + 1) ⊎ (q0 * p1 ≡ q1 * p0 + 1)

Neighbours-round :
    (p0 q0 p1 q1 a : ℕ) → Neighbours p0 q0 p1 q1 → Neighbours p1 q1 (p0 + a * p1) (q0 + a * q1)
Neighbours-round p0 q0 p1 q1 a (inl e) = inr (sym (det_round p0 q0 p1 q1 a e))
Neighbours-round p0 q0 p1 q1 a (inr e) = inl (sym (det_round q0 p0 q1 p1 a e))

pub le_mul_pos : (a b : ℕ) → 0 < b → a ≤ a * b
le_mul_pos a b h = grind arith

pub mul_lt : (a b c : ℕ) → a < b → 0 < c → a * c < b * c
mul_lt a b c h k = grind arith

div_pos : (a b : ℕ) → 0 < b → b < a → 0 < a / b
div_pos a b h k = grind arith

-- The loop holds two neighbouring fractions whose multiples by what is left of Euclid's algorithm
-- add up to the fraction itself.
pub record IsOnTrack (n d num denom p0 q0 p1 q1 : ℕ) : Type 0 where
  pub upper : n ≡ p1 * num + p0 * denom
  pub lower : d ≡ q1 * num + q0 * denom
  pub beside : Neighbours p0 q0 p1 q1
  pub some_q : 0 < q1
  pub small_q : q1 ≤ max_denominator
  pub falls : denom < num

module _ (n d num denom p0 q0 p1 q1 : ℕ) (t : IsOnTrack n d num denom p0 q0 p1 q1) where
  -- Where the loop stops, the fraction misses by `denom`.
  pub stop-IsClose : max_denominator * denom < d → IsClose n d p1 q1
  stop-IsClose small = (denom, below t.beside, above t.beside, small)
    where
      below : Neighbours p0 q0 p1 q1 → n * q1 ≤ d * p1 + denom
      below (inl e) = rw (t.upper, t.lower) (omega (arith, cross p0 q0 p1 q1 num denom e))
      below (inr e) = rw (t.upper, t.lower) (omega (arith, cross q0 p0 q1 p1 num denom e))

      above : Neighbours p0 q0 p1 q1 → d * p1 ≤ n * q1 + denom
      above (inl e) = rw (t.upper, t.lower) (omega (arith, cross p0 q0 p1 q1 num denom e))
      above (inr e) = rw (t.upper, t.lower) (omega (arith, cross q0 p0 q1 p1 num denom e))

  -- The next fraction's terms are no larger than those of the fraction itself, so nothing wraps.
  pub next_le :
      0 < denom
      → (q0 + num / denom * q1 ≤ d)
        × (p0 + num / denom * p1 ≤ n)
        × ((q0 + num / denom * q1) * denom ≤ d)
  next_le h =
      let below = regroup_round q1 q0 num denom in
      let over = regroup_round p1 p0 num denom in
      (
        omega (arith, t.lower, below, le_mul_pos (q0 + num / denom * q1) denom h),
        omega (arith, t.upper, over, le_mul_pos (p0 + num / denom * p1) denom h),
        omega (arith, t.lower, below),
      )

  pub next-IsOnTrack :
      q0 + num / denom * q1 ≤ max_denominator
      → 0 < denom
      → IsOnTrack n d denom (num % denom) p1 q1 (p0 + num / denom * p1) (q0 + num / denom * q1)
  next-IsOnTrack small h = record {
    upper = t.upper ∙ regroup_round p1 p0 num denom;
    lower = t.lower ∙ regroup_round q1 q0 num denom;
    beside = Neighbours-round p0 q0 p1 q1 (num / denom) t.beside;
    some_q = omega (arith, t.some_q, le_mul_pos q1 (num / denom) more, mul_comm q1 (num / denom));
    small_q = small;
    falls = mod_lt num denom h;
  }
    where
      more : 0 < num / denom
      more = div_pos num denom h t.falls
