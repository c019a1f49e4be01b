-- ===== src/Synth/Fraction/Close.antt =====
-- How close the fraction is.
use nano_vna_x.Base.{
  ℕ, zero, suc, ◌+◌, ◌*◌, ◌/◌, ◌%◌, ◌^◌, ◌≤◌, ◌<◌, ◌≡◌, refl, ◌∙◌, inl, inr, false, Option, some,
  ltb, leb, ◌==◌, if◌then◌else◌, u32, arith, Bool-cases,
}
use native.Mathlib.Nat.{mul_comm}
use nano_vna_x.Synth.Fraction.{max_denominator, fraction_loop, approximate_fraction}
use nano_vna_x.Synth.Fraction.Track.{
  div_mod, mod_lt, mul_lt, IsClose, IsOnTrack, stop-IsClose, next_le, next-IsOnTrack,
}

-- What the loop returns.
abbrev pub ReturnsClose : ℕ → ℕ → Option (ℕ × ℕ) → Type 0
ReturnsClose n d r =
    (p : ℕ) × (q : ℕ) × (r ≡ some (p, q)) × (0 < q) × (q ≤ max_denominator) × IsClose n d p q

-- A round that does not wrap.
loop_round :
    (fuel num denom p0 q0 p1 q1 : ℕ)
    → (denom == 0) ≡ false
    → p0 + num / denom * p1 < 2 ^ 32
    → q0 + num / denom * q1 < 2 ^ 32
    → fraction_loop (suc fuel) num denom p0 q0 p1 q1 ≡ (
        if ltb max_denominator (q0 + num / denom * q1)
        then some (p1, q1)
        else fraction_loop fuel denom
            (num % denom)
            p1
            q1
            (p0 + num / denom * p1)
            (q0 + num / denom * q1))
unfolding fraction_loop
loop_round fuel num denom p0 q0 p1 q1 more fits_p fits_q =
    let whole_q : u32 (q0 + u32 (num / denom * q1)) ≡ q0 + num / denom * q1 = omega arith in
    let whole_p : u32 (p0 + u32 (num / denom * p1)) ≡ p0 + num / denom * p1 = omega arith in
    rw (more, whole_q, whole_p) refl

fraction_loop-ReturnsClose :
    (fuel n d num denom p0 q0 p1 q1 : ℕ)
    → n < 2 ^ 32
    → d < 2 ^ 32
    → 0 < d
    → denom < fuel
    → IsOnTrack n d num denom p0 q0 p1 q1
    → ReturnsClose n d (fraction_loop fuel num denom p0 q0 p1 q1)
unfolding fraction_loop
fraction_loop-ReturnsClose zero n d num denom p0 q0 p1 q1 fits_n fits_d some_d enough t =
    absurd (omega arith)
fraction_loop-ReturnsClose (suc fuel) n d num denom p0 q0 p1 q1 fits_n fits_d some_d enough t =
    elim (Bool-cases (denom == 0)) [
      | inl over ↦
          let none_left : denom ≡ 0 = ground arith in
          (
            p1,
            q1,
            rw over refl,
            t.some_q,
            t.small_q,
            stop-IsClose n d num denom p0 q0 p1 q1 t (omega arith),
          )
      | inr more ↦
          let some_left : 0 < denom = ground arith in
          let (small_q, small_p, scaled) = next_le n d num denom p0 q0 p1 q1 t some_left in
          let round = loop_round fuel num denom p0 q0 p1 q1 more (omega arith) (omega arith) in
          elim (Bool-cases (ltb max_denominator (q0 + num / denom * q1))) [
            | inl big ↦
                let passed : max_denominator < q0 + num / denom * q1 = ground arith in
                (
                  p1,
                  q1,
                  round ∙ rw big refl,
                  t.some_q,
                  t.small_q,
                  stop-IsClose n d num denom p0 q0 p1 q1 t (
                      omega (
                        arith,
                        scaled,
                        mul_lt max_denominator (q0 + num / denom * q1) denom passed some_left,
                      )),
                )
            | inr small ↦
                let kept : q0 + num / denom * q1 ≤ max_denominator = ground arith in
                let (p, q, e, some_q, small_q', close) =
                  fraction_loop-ReturnsClose fuel n d denom (num % denom) p1 q1
                    (p0 + num / denom * p1) (q0 + num / denom * q1) fits_n fits_d some_d
                    (omega (arith, mod_lt num denom some_left))
                    (next-IsOnTrack n d num denom p0 q0 p1 q1 t kept some_left) in
                (p, q, round ∙ rw small e, some_q, small_q', close)
          ]
    ]

div_le : (a b : ℕ) → a / b ≤ a
div_le a b = grind arith

-- The first round.
first_round :
    (n d : ℕ)
    → n < 2 ^ 32
    → 0 < d
    → fraction_loop (suc d) n d 0 1 1 0 ≡ fraction_loop d d (n % d) 1 0 (n / d) 1
first_round n d fits some_d =
    let more : (d == 0) ≡ false = ground arith in
    let whole_p : 0 + n / d * 1 ≡ n / d = omega arith in
    let whole_q : 1 + n / d * 0 ≡ 1 = omega arith in
    loop_round d n d 0 1 1 0 more (omega (arith, div_le n d)) (omega arith)
    ∙ rw (whole_p, whole_q) refl

first-IsOnTrack : (n d : ℕ) → 0 < d → IsOnTrack n d d (n % d) 1 0 (n / d) 1
first-IsOnTrack n d some_d = record {
  upper = omega (arith, div_mod n d);
  lower = omega arith;
  beside = inl (omega arith);
  some_q = omega arith;
  small_q = omega arith;
  falls = mod_lt n d some_d;
}

-- For a fraction of 32-bit terms the call returns a fraction p / q whose denominator is not 0 and fits
-- 20 bits, and which misses it by less than 1 / (max_denominator * q).
pub approximate_fraction-ReturnsClose :
    (n d : ℕ) → n < 2 ^ 32 → d < 2 ^ 32 → 0 < d → ReturnsClose n d (approximate_fraction n d)
unfolding approximate_fraction
approximate_fraction-ReturnsClose n d fits_n fits_d some_d =
    elim (Bool-cases (leb d max_denominator)) [
      | inl small ↦ (
        n,
        d,
        rw small refl,
        some_d,
        ground arith,
        (0, omega (arith, mul_comm n d), omega (arith, mul_comm n d), omega arith),
      )
      | inr big ↦
          let (p, q, e, some_q, small_q, close) =
            fraction_loop-ReturnsClose d n d d (n % d) 1 0 (n / d) 1 fits_n fits_d some_d
              (mod_lt n d some_d) (first-IsOnTrack n d some_d) in
          (p, q, rw big (first_round n d fits_n some_d ∙ e), some_q, small_q, close)
    ]
