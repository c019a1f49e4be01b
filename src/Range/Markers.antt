-- ===== src/Range/Markers.antt =====
-- Which point a marker is put on.
use nano_vna_x.Base.{
  ℕ, ◌+◌, ◌-◌, ◌*◌, ◌/◌, ◌^◌, ◌≤◌, ◌<◌, ◌≡◌, ap, true, ltb, leb, if◌then◌else◌, sub32, arith,
}
use nano_vna_x.Range.{marker_index}

-- A marker is put on a point of the sweep.
marker_index-lt :
    (low high points frequency : ℕ) → 0 < points → marker_index low high points frequency < points
unfolding marker_index
marker_index-lt low high points frequency h = ground arith

le_div : (a b d : ℕ) → 0 < d → d * b ≤ a → b ≤ a / d
le_div a b d h k = grind arith

div_mul_le : (a d : ℕ) → a / d * d ≤ a
div_mul_le a d = grind arith

le_mul_of_le : (a c d : ℕ) → c ≤ d → a * c ≤ a * d
le_mul_of_le a c d h = grind arith

div_half : (a d : ℕ) → 2 ≤ d → a / d ≤ a / 2
div_half a d h =
    le_div a (a / d) 2 (omega arith) (omega (arith, div_mul_le a d, le_mul_of_le (a / d) 2 d h))

step_le : (a b : ℕ) → 0 < b → a / b * (b + 1) ≤ 2 * a
step_le a b h =
    let expand : a / b * (b + 1) ≡ a / b * b + a / b = grind arith in
    omega (arith, expand, div_mul_le a b, le_mul_of_le (a / b) 1 b (omega arith))

-- A marker whose frequency lies below the range is put on the last point, where the range has steps
-- of 2 Hz or more and is not so wide that the distance wraps.
pub marker_index_below :
    (low high points frequency : ℕ)
    → 1 < points
    → low < high
    → high < 2 ^ 32
    → frequency < low
    → 2 ≤ (high - low) / (points - 1)
    → 2 * (high - low) + (low - frequency) ≤ 2 ^ 32
    → marker_index low high points frequency ≡ points - 1
unfolding marker_index
marker_index_below low high points frequency some_step ordered fits below wide far =
    let many : ltb 1 points ≡ true = ground arith in
    let span : sub32 high low ≡ high - low = omega arith in
    let away : sub32 frequency low ≡ 2 ^ 32 - (low - frequency) = omega arith in
    rw (many, span, away)
      (last ((high - low) / (points - 1)) (2 ^ 32 - (low - frequency)) wide (omega arith) (
        omega (
          arith,
          step_le (high - low) (points - 1) (omega arith),
          ap (λ t. (high - low) / (points - 1) * t) one_more,
        )))
  where
    one_more : points ≡ points - 1 + 1
    one_more = omega arith

    last :
        (step far : ℕ)
        → 2 ≤ step
        → far < 2 ^ 32
        → step * points ≤ far
        → (if leb points (if leb (2 ^ 31) (far / step) then 0 else far / step)
            then points - 1
            else (if leb (2 ^ 31) (far / step) then 0 else far / step))
          ≡ points - 1
    last step far wide small reach =
        let over = le_div far points step (omega arith) reach in
        let under = div_half far step wide in ground arith
