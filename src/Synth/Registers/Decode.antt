-- ===== src/Synth/Registers/Decode.antt =====
-- What the chip reads from the bytes, as its data sheet has it.
use nano_vna_x.Base.{
  ℕ, zero, suc, ◌+◌, ◌-◌, ◌*◌, ◌/◌, ◌%◌, ◌^◌, ◌≤◌, ◌<◌, ◌≡◌, refl, ap, ◌∙◌, false, Option, none,
  some, List, [], ◌∷◌, ◌==◌, if◌then◌else◌, u32, sub32, arith, Bool-cases, inl, inr,
}
use native.Mathlib.Nat.{mul_right_comm, add-mul}
use nano_vna_x.Synth.Registers.{
  Params, params_of, register_bytes, pll_bytes, multisynth_bytes, divby4,
}

-- A setting that the chip reads: where it goes, the bits above P1, and the parameters.
pub record Setting : Type 0 where
  pub base : ℕ
  pub upper : ℕ
  pub params : Params

pub read_setting : List ℕ → Option Setting
read_setting (base ∷ b1 ∷ b2 ∷ b3 ∷ b4 ∷ b5 ∷ b6 ∷ b7 ∷ b8 ∷ []) = some (record {
  base = base;
  upper = b3 / 4 * 4;
  params = record {
    p1 = b3 % 4 * 2 ^ 16 + b4 * 2 ^ 8 + b5;
    p2 = b6 % 2 ^ 4 * 2 ^ 16 + b7 * 2 ^ 8 + b8;
    p3 = b6 / 2 ^ 4 * 2 ^ 16 + b1 * 2 ^ 8 + b2;
  };
})
read_setting _ = none

-- The parameters fit their registers of 18 and 20 bits.
abbrev pub FitsRegisters : Params → Type 0
FitsRegisters p = (p.p1 < 2 ^ 18) × (p.p2 < 2 ^ 20) × (p.p3 < 2 ^ 20)

read_setting-register_bytes :
    (base upper : ℕ) (p : Params)
    → FitsRegisters p
    → upper % 4 ≡ 0
    → read_setting (register_bytes base upper p)
      ≡ some (record { base = base; upper = upper; params = p })
unfolding read_setting register_bytes
read_setting-register_bytes base upper p fits aligned =
    let up : (p.p1 / 2 ^ 16 % 4 + upper) / 4 * 4 ≡ upper = omega (arith, aligned) in
    let e1 : (p.p1 / 2 ^ 16 % 4 + upper) % 4 * 2 ^ 16 + p.p1 / 2 ^ 8 % 2 ^ 8 * 2 ^ 8 + p.p1 % 2 ^ 8
        ≡ p.p1 =
      omega (arith, fits, aligned) in
    let e2 : (p.p3 / 2 ^ 16 % 2 ^ 4 * 2 ^ 4 + p.p2 / 2 ^ 16 % 2 ^ 4) % 2 ^ 4 * 2 ^ 16
          + p.p2 / 2 ^ 8 % 2 ^ 8 * 2 ^ 8
          + p.p2 % 2 ^ 8
        ≡ p.p2 =
      omega (arith, fits) in
    let e3 : (p.p3 / 2 ^ 16 % 2 ^ 4 * 2 ^ 4 + p.p2 / 2 ^ 16 % 2 ^ 4) / 2 ^ 4 * 2 ^ 16
          + p.p3 / 2 ^ 8 % 2 ^ 8 * 2 ^ 8
          + p.p3 % 2 ^ 8
        ≡ p.p3 =
      omega (arith, fits) in
    λ i.
      some
        (record { base = base; upper = up i; params = record { p1 = e1 i; p2 = e2 i; p3 = e3 i } })

-- The equation of the data sheet, multiplied by the denominators: the parameters stand for the ratio
-- whole + num / denom.
abbrev pub Meets : ℕ → ℕ → ℕ → Params → Type 0
Meets whole num denom p = ((p.p1 + 512) * p.p3 + p.p2) * denom ≡ 128 * (whole * denom + num) * p.p3

-- The terms of a ratio that the registers can hold.
abbrev pub IsRatio : ℕ → ℕ → ℕ → Type 0
IsRatio whole num denom =
    (4 ≤ whole) × (whole ≤ 2050) × (num ≤ denom) × (0 < denom) × (denom < 2 ^ 20)

div_lt : (a b c : ℕ) → a < c * b → a / b < c
div_lt a b c h = grind arith

div_mod : (a b : ℕ) → a / b * b + a % b ≡ a
div_mod a b = grind arith

mod_lt : (a b : ℕ) → 0 < b → a % b < b
mod_lt a b h = grind arith

whole_ratio : (whole denom : ℕ) → (whole * 128 * 1 + 0) * denom ≡ 128 * (whole * denom + 0) * 1
whole_ratio whole denom = grind arith

params_of-whole :
    (whole denom : ℕ)
    → IsRatio whole 0 denom
    → FitsRegisters (params_of whole 0 denom) × Meets whole 0 denom (params_of whole 0 denom)
unfolding params_of
params_of-whole whole denom r =
    let shifted : sub32 (u32 (whole * 128)) 512 ≡ whole * 128 - 512 = omega arith in
    let back : whole * 128 - 512 + 512 ≡ whole * 128 = omega arith in
    rw shifted ((omega arith, omega arith, omega arith), rw back (whole_ratio whole denom))

params_of-part :
    (whole num denom : ℕ)
    → IsRatio whole (suc num) denom
    → FitsRegisters (params_of whole (suc num) denom)
      × Meets whole (suc num) denom (params_of whole (suc num) denom)
unfolding params_of
params_of-part whole num denom r =
    let n = suc num * 128 in
    let some_n : (u32 (suc num * 128) == 0) ≡ false = ground arith in
    let same_n : u32 (suc num * 128) ≡ suc num * 128 = omega arith in
    let small : n / denom < 129 = div_lt n denom 129 (omega arith) in
    let shifted : sub32 (u32 (whole * 128)) 512 ≡ whole * 128 - 512 = omega arith in
    let sum : u32 (whole * 128 - 512 + n / denom) ≡ whole * 128 - 512 + n / denom = omega arith in
    let back : whole * 128 - 512 + n / denom + 512 ≡ whole * 128 + n / denom = omega arith in
    rw (some_n, same_n, shifted, sum)
      (
        (omega arith, omega (arith, mod_lt n denom (omega arith)), omega arith),
        ap (λ t. t * denom)
            (ap (λ t. t * denom + n % denom) back
              ∙ omega (
                arith,
                add-mul (whole * 128) (n / denom) denom,
                mul_right_comm whole 128 denom,
                div_mod n denom,
              )),
      )

-- For a ratio that they can hold, the parameters fit their registers and stand for the ratio.
params_of_lem :
    (whole num denom : ℕ)
    → IsRatio whole num denom
    → FitsRegisters (params_of whole num denom) × Meets whole num denom (params_of whole num denom)
params_of_lem whole zero denom r = params_of-whole whole denom r
params_of_lem whole (suc num) denom r = params_of-part whole num denom r

-- The chip reads from the bytes a setting for the PLL that stands for the ratio.
pub read_setting-pll_bytes :
    (pll_source mult num denom : ℕ)
    → IsRatio mult num denom
    → (p : Params) × (read_setting (pll_bytes pll_source mult num denom)
        ≡ some (record { base = pll_source; upper = 0; params = p }))
      × Meets mult num denom p
unfolding pll_bytes
read_setting-pll_bytes pll_source mult num denom r =
    let (fits, meets) = params_of_lem mult num denom r in
    (
      params_of mult num denom,
      read_setting-register_bytes pll_source 0 (params_of mult num denom) fits (omega arith),
      meets,
    )

-- It reads the divider and its output divider from the bytes, and for a division by 4 the bits that
-- ask for one.
pub read_setting-multisynth_bytes :
    (base div num denom rdiv : ℕ)
    → IsRatio div num denom
    → rdiv % 2 ^ 4 ≡ 0
    → (p : Params) × (read_setting (multisynth_bytes base div num denom rdiv)
        ≡ some
            (record { base = base; upper = if div == 4 then rdiv + divby4 else rdiv; params = p }))
      × (if div == 4 then (p.p1 ≡ 0) × (p.p2 ≡ 0) × (p.p3 ≡ 1) else Meets div num denom p)
unfolding multisynth_bytes
read_setting-multisynth_bytes base div num denom rdiv r aligned = elim (Bool-cases (div == 4)) [
  | inl four ↦
      let p : Params = record { p1 = 0; p2 = 0; p3 = 1 } in
      (
        p,
        rw four (
            read_setting-register_bytes base (rdiv + divby4) p
              (omega arith, omega arith, omega arith) (omega (arith, aligned))),
        rw four (refl, refl, refl),
      )
  | inr more ↦
      let (fits, meets) = params_of_lem div num denom r in
      (
        params_of div num denom,
        rw more (
            read_setting-register_bytes base rdiv (params_of div num denom) fits
              (omega (arith, aligned))),
        rw more meets,
      )
]
