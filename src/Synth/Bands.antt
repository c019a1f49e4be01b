-- ===== src/Synth/Bands.antt =====
-- src/driver/si5351.c: the tables that divide the frequencies into bands, one for each board and chip,
-- and the search for a band.
pub mod Level
use nano_vna_x.Base.{
  ℕ, zero, suc, ◌+◌, ◌-◌, ◌*◌, ◌^◌, Option, none, some, List, [], ◌∷◌, ltb, leb, if◌then◌else◌,
}
use mathlib.Core.Option

-- band_strategy_t, where `div` stands for `pll_n` too: they are one byte of a union.
pub record Band : Type 0 where
  pub freq : ℕ
  pub mode : ℕ
  pub div : ℕ
  pub mul : ℕ
  pub omul : ℕ
  pub pow : ℕ
  pub opow : ℕ
  pub l_gain : ℕ
  pub r_gain : ℕ
  pub freq_align : ℕ

-- An entry, in the order of its fields.
abbrev pub band : ℕ → ℕ → ℕ → ℕ → ℕ → ℕ → ℕ → ℕ → ℕ → ℕ → Band
band freq mode div mul omul pow opow l_gain r_gain freq_align = record {
  freq = freq;
  mode = mode;
  div = div;
  mul = mul;
  omul = omul;
  pow = pow;
  opow = opow;
  l_gain = l_gain;
  r_gain = r_gain;
  freq_align = freq_align;
}

abbrev pub fixed_pll : ℕ
fixed_pll = 1

abbrev pub fixed_mult : ℕ
fixed_mult = 2

unfoldable pub band_strategy_33h_si5351 : List Band
band_strategy_33h_si5351 =
    band 0 0 0 0 0 15 15 255 255 1
    ∷ band 26000 1 8 1 1 0 0 0 0 1
    ∷ band 100000000 1 32 1 1 0 0 0 0 1
    ∷ band 130000000 2 8 1 1 3 2 0 0 1
    ∷ band 180000000 2 6 1 1 3 2 0 0 1
    ∷ band 1 2 4 1 1 3 2 0 0 1
    ∷ band 460000000 2 6 3 5 3 2 40 40 60
    ∷ band 600000000 2 4 3 5 3 2 40 40 60
    ∷ band 3 2 4 3 5 3 2 50 50 60
    ∷ band 1200000000 2 4 5 7 3 2 70 70 140
    ∷ band 5 2 4 5 7 3 2 70 70 140
    ∷ band 1800000000 2 4 7 9 3 3 70 70 252
    ∷ band 7 2 4 7 9 3 3 70 70 252
    ∷ band 2400000000 2 4 9 11 3 3 85 85 396
    ∷ band 9 2 4 9 11 3 3 95 95 396
    ∷ band 11 2 4 11 12 3 3 95 95 528
    ∷ []

unfoldable pub band_strategy_h4_si5351 : List Band
band_strategy_h4_si5351 =
    band 0 0 0 0 0 15 15 255 255 1
    ∷ band 26000 1 8 1 1 0 0 0 0 1
    ∷ band 100000000 1 32 1 1 0 0 0 0 1
    ∷ band 130000000 2 8 1 1 1 1 0 0 1
    ∷ band 180000000 2 6 1 1 1 1 0 0 1
    ∷ band 1 2 4 1 1 1 1 0 0 1
    ∷ band 460000000 2 6 3 5 1 1 40 40 60
    ∷ band 600000000 2 4 3 5 1 1 40 40 60
    ∷ band 3 2 4 3 5 3 1 50 50 60
    ∷ band 1200000000 2 4 5 7 3 2 70 70 140
    ∷ band 5 2 4 5 7 3 2 70 70 140
    ∷ band 1800000000 2 4 7 9 3 3 70 70 252
    ∷ band 7 2 4 7 9 3 3 70 70 252
    ∷ band 2400000000 2 4 9 11 3 3 85 85 396
    ∷ band 9 2 4 9 11 3 3 95 95 396
    ∷ band 11 2 4 11 12 3 3 95 95 528
    ∷ []

unfoldable pub band_strategy_36h_ms5351 : List Band
band_strategy_36h_ms5351 =
    band 0 0 0 0 0 15 15 255 255 1
    ∷ band 26000 1 16 1 1 0 0 0 0 1
    ∷ band 120000000 1 32 1 1 0 0 0 0 1
    ∷ band 1 2 4 1 1 1 1 0 0 1
    ∷ band 400000000 2 8 3 5 3 2 20 20 1
    ∷ band 588000000 2 6 3 5 3 2 20 20 1
    ∷ band 3 2 4 3 5 3 2 30 30 1
    ∷ band 5 2 4 5 7 3 2 60 60 1
    ∷ band 7 2 4 7 9 3 3 75 75 252
    ∷ band 9 2 4 9 11 3 3 80 90 396
    ∷ band 11 2 4 11 13 3 3 95 95 528
    ∷ []

unfoldable pub band_strategy_swc5351 : List Band
band_strategy_swc5351 =
    band 0 0 0 0 0 15 15 255 255 1
    ∷ band 32000 1 6 1 1 3 1 0 0 1
    ∷ band 130000000 1 40 1 1 3 1 0 0 1
    ∷ band 1 2 4 1 1 3 1 0 0 1
    ∷ band 588000000 2 6 3 5 3 1 0 0 60
    ∷ band 3 2 4 3 5 3 1 0 0 60
    ∷ band 5 2 4 5 7 3 3 0 0 140
    ∷ band 7 2 4 7 9 3 3 40 40 252
    ∷ band 9 2 4 9 11 3 3 40 40 396
    ∷ band 11 2 4 11 13 3 3 40 40 528
    ∷ []

-- The limit of a band: a small number counts multiples of the harmonic threshold.
abbrev pub band_limit : ℕ → Band → ℕ
band_limit threshold b =
    if ltb b.freq 20
    then if ltb (2 ^ 32 - 1) (b.freq * threshold) then 2 ^ 32 - 1 else b.freq * threshold
    else b.freq

-- The loop of si5351_get_harmonic_lvl; `none` is a read behind the end of the table. The threshold is
-- clamped before.
unfoldable pub si5351_get_harmonic_lvl : ℕ → ℕ → List Band → Option ℕ
si5351_get_harmonic_lvl threshold freq [] = none
si5351_get_harmonic_lvl threshold freq (b ∷ bands) =
    let later = Option.map suc (si5351_get_harmonic_lvl threshold freq bands) in
    if leb freq (band_limit threshold b) then some 0 else later
