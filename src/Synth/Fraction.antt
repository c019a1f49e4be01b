-- ===== src/Synth/Fraction.antt =====
-- src/driver/si5351.c: `approximate_fraction`, which finds a fraction whose denominator fits the
-- registers. All variables are `uint32_t`.
pub mod Track
pub mod Close
pub mod Exact
use nano_vna_x.Base.{
  ℕ, zero, suc, ◌+◌, ◌*◌, ◌/◌, ◌%◌, ◌^◌, Option, none, some, ltb, leb, ◌==◌, if◌then◌else◌, u32,
}

-- MAX_DENOMINATOR
abbrev pub max_denominator : ℕ
max_denominator = 1048575

-- The loop: the numerator and the denominator of the result.
unfoldable pub fraction_loop : ℕ → ℕ → ℕ → ℕ → ℕ → ℕ → ℕ → Option (ℕ × ℕ)
fraction_loop zero num denom p0 q0 p1 q1 = none
fraction_loop (suc fuel) num denom p0 q0 p1 q1 =
    let a = num / denom in
    let b = num % denom in
    let q2 = u32 (q0 + u32 (a * q1)) in
    let p2 = u32 (p0 + u32 (a * p1)) in
    let onward = fraction_loop fuel denom b p1 q1 p2 q2 in
    if denom == 0 then some (p1, q1) else if ltb max_denominator q2 then some (p1, q1) else onward

-- `denom` falls in each round, so it is fuel enough.
unfoldable pub approximate_fraction : ℕ → ℕ → Option (ℕ × ℕ)
unfolding fraction_loop
approximate_fraction n d =
    if leb d max_denominator then some (n, d) else fraction_loop (suc d) n d 0 1 1 0
