-- ===== src/Tests/Synths.antt =====
-- src/driver/si5351.c at concrete frequencies, bands and states.
use nano_vna_x.Base.{◌≡◌, refl, none, some, List, [], arith}
use nano_vna_x.Synth.Bands.{
  Band, band, band_strategy_swc5351, band_strategy_h4_si5351, si5351_get_harmonic_lvl,
}
use nano_vna_x.Synth.Bands.Level.{IsLevel, si5351_get_harmonic_lvl-IsLevel}
use nano_vna_x.Synth.Cached.{IsCached, si5351_set_frequency-IsCached}
use nano_vna_x.Synth.Driver.{Synth, si5351_set_frequency_fixedpll, si5351_setup_pll_freq}
use nano_vna_x.Synth.Fraction.{approximate_fraction}
use nano_vna_x.Synth.Tuned.{Tuned, si5351_set_frequency-Tuned}
use nano_vna_x.Synth.Repeat.{si5351_set_frequency_16}
use nano_vna_x.Synth.SameDiv.{SameDivider, retune-SameDivider}
use nano_vna_x.Synth.Tune.{
  Delays, Choice, choose, check_power, setup_fixed_pll, tune_fixed_pll, setup_fixed_mult,
  tune_fixed_mult, tune, retune, si5351_set_frequency,
}

abbrev delays : Delays
delays = record { band_1_2 = 1; band_3_4 = 2; bandchange = 20; channel_change = 1 }

-- A driver with nothing set.
abbrev fresh : List Band → Synth
fresh bands = record {
  current_band = 0;
  current_power = 0;
  current_freq = 0;
  pending_settling_cycles = 0;
  clk_cache = λ channel. 0;
  xtal_freq = 26000000;
  if_offset = 12000;
  threshold = 300000000;
  band_s = bands;
  actions = [];
}

-- 2.4 GHz with the threshold at 50 MHz.
si5351_get_harmonic_lvl-IsLevel_example :
    IsLevel 50000000 2400000000 band_strategy_swc5351
      (si5351_get_harmonic_lvl 50000000 2400000000 band_strategy_swc5351)
si5351_get_harmonic_lvl-IsLevel_example =
    si5351_get_harmonic_lvl-IsLevel 50000000 2400000000 band_strategy_swc5351

too_high : si5351_get_harmonic_lvl 50000000 2400000000 band_strategy_swc5351 ≡ none
unfolding si5351_get_harmonic_lvl band_strategy_swc5351
too_high = refl

abbrev to_50m : Choice
to_50m = record { freq = 50000000; ofreq = 50012000; rdiv = 0; drive_strength = 0; band = 2 }

-- 50 MHz on the H4 board.
si5351_set_frequency-Tuned_example :
    Tuned
      (band 100000000 1 32 1 1 0 0 0 0 1)
      to_50m
      26000000
      (si5351_set_frequency delays 50000000 0 (fresh band_strategy_h4_si5351))
unfolding choose check_power band_strategy_h4_si5351 si5351_get_harmonic_lvl
si5351_set_frequency-Tuned_example =
    si5351_set_frequency-Tuned delays 50000000 0 (band 0 0 0 0 0 15 15 255 255 1)
      (band 100000000 1 32 1 1 0 0 0 0 1) to_50m (fresh band_strategy_h4_si5351)
      (λ e. absurd (omega arith)) refl (λ e. absurd (omega arith)) refl refl refl
      (
        omega arith,
        omega arith,
        (omega arith, omega arith, omega arith, omega arith),
        (omega arith, omega arith, omega arith, omega arith),
        omega arith,
      )

-- 100 kHz on the H4 board, at the lowest drive.
abbrev at_100k : Synth
at_100k = elim (si5351_set_frequency delays 100000 0 (fresh band_strategy_h4_si5351)) [
  | none ↦ fresh band_strategy_h4_si5351
  | some r ↦ r.1
]

sets_100k :
    si5351_set_frequency delays 100000 0 (fresh band_strategy_h4_si5351) ≡ some (20, at_100k)
unfolding si5351_set_frequency choose retune check_power tune tune_fixed_pll setup_fixed_pll
    si5351_set_frequency_fixedpll approximate_fraction band_strategy_h4_si5351
sets_100k = refl

si5351_set_frequency-IsCached_example : IsCached at_100k.clk_cache at_100k.actions
si5351_set_frequency-IsCached_example =
    si5351_set_frequency-IsCached delays 100000 0 (fresh band_strategy_h4_si5351) sets_100k
      (λ channel few some_byte. absurd (some_byte refl))

si5351_set_frequency_16_example : si5351_set_frequency delays 1600000 0 at_100k ≡ some (1, at_100k)
unfolding band_strategy_h4_si5351 si5351_get_harmonic_lvl
si5351_set_frequency_16_example =
    si5351_set_frequency_16 delays 100000 0 2 (fresh band_strategy_h4_si5351)
      (band 26000 1 8 1 1 0 0 0 0 1) refl (omega arith) (omega arith) (omega arith) refl sets_100k

-- The SWC5351 chip at 20 kHz, in the first band, and then at 500 MHz: the PLL's 6 is taken for the
-- divider.
abbrev at_20k : Synth
at_20k = elim (si5351_set_frequency delays 20000 0 (fresh band_strategy_swc5351)) [
  | none ↦ fresh band_strategy_swc5351
  | some r ↦ r.1
]

abbrev to_500m : Choice
to_500m = record { freq = 500000000; ofreq = 500012000; rdiv = 0; drive_strength = 0; band = 4 }

abbrev at_500m : Synth
at_500m = elim (retune delays to_500m at_20k) [ none ↦ at_20k | some r ↦ r.1 ]

retune-SameDivider_example : SameDivider 1 at_20k at_500m
unfolding si5351_set_frequency choose retune check_power tune tune_fixed_pll setup_fixed_pll
    tune_fixed_mult setup_fixed_mult si5351_setup_pll_freq si5351_set_frequency_fixedpll
    approximate_fraction band_strategy_swc5351
retune-SameDivider_example =
    retune-SameDivider 1 delays (band 32000 1 6 1 1 3 1 0 0 1) (band 588000000 2 6 3 5 3 1 0 0 60)
      to_500m at_20k (omega arith) refl refl refl refl refl (λ e. absurd (omega arith)) refl
