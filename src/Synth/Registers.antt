-- ===== src/Synth/Registers.antt =====
-- src/driver/si5351.c: the bytes that program a PLL or a divider. Fields that do not overlap are added
-- where the code joins them by `|`.
pub mod Decode
use nano_vna_x.Base.{
  ℕ, ◌+◌, ◌-◌, ◌*◌, ◌/◌, ◌%◌, ◌^◌, List, [], ◌∷◌, ◌==◌, if◌then◌else◌, u32, sub32,
}

-- P1, P2 and P3
pub record Params : Type 0 where
  pub p1 : ℕ
  pub p2 : ℕ
  pub p3 : ℕ

-- Of `mult` + `num` / `denom`, in integer or fractional mode.
unfoldable pub params_of : ℕ → ℕ → ℕ → Params
params_of mult num denom =
    let num' = u32 (num * 128) in
    let whole = sub32 (u32 (mult * 128)) 512 in
    if num' == 0
    then record { p1 = whole; p2 = 0; p3 = 1 }
    else record { p1 = u32 (whole + num' / denom); p2 = num' % denom; p3 = denom }

-- reg[0] to reg[8], where `upper` is what reg[3] holds above P1.
unfoldable pub register_bytes : ℕ → ℕ → Params → List ℕ
register_bytes base upper p =
    base
    ∷ p.p3 / 2 ^ 8 % 2 ^ 8
    ∷ p.p3 % 2 ^ 8
    ∷ (p.p1 / 2 ^ 16 % 4 + upper)
    ∷ p.p1 / 2 ^ 8 % 2 ^ 8
    ∷ p.p1 % 2 ^ 8
    ∷ (p.p3 / 2 ^ 16 % 2 ^ 4 * 2 ^ 4 + p.p2 / 2 ^ 16 % 2 ^ 4)
    ∷ p.p2 / 2 ^ 8 % 2 ^ 8
    ∷ p.p2 % 2 ^ 8
    ∷ []

-- The bytes of si5351_setup_pll.
unfoldable pub pll_bytes : ℕ → ℕ → ℕ → ℕ → List ℕ
unfolding params_of register_bytes
pll_bytes pll_source mult num denom = register_bytes pll_source 0 (params_of mult num denom)

-- SI5351_DIVBY4
abbrev pub divby4 : ℕ
divby4 = 12

-- The bytes of si5351_setupMultisynth for the divider with the first register `base`.
unfoldable pub multisynth_bytes : ℕ → ℕ → ℕ → ℕ → ℕ → List ℕ
unfolding params_of register_bytes
multisynth_bytes base div num denom rdiv =
    if div == 4
    then register_bytes base (rdiv + divby4) (record { p1 = 0; p2 = 0; p3 = 1 })
    else register_bytes base rdiv (params_of div num denom)
