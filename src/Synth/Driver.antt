-- ===== src/Synth/Driver.antt =====
-- src/driver/si5351.c: what the driver keeps, what it sends, and the functions that program one PLL
-- or one divider.
use nano_vna_x.Base.{ℕ, ◌+◌, ◌*◌, ◌/◌, ◌%◌, Option, some, List, [], ◌∷◌, ◌==◌, if◌then◌else◌, u32}
use nano_vna_x.Base.Options.{◌>>=◌}
use nano_vna_x.Synth.Bands.{Band}
use nano_vna_x.Synth.Fraction.{approximate_fraction}
use nano_vna_x.Synth.Registers.{pll_bytes, multisynth_bytes}

-- What the driver does to the hardware: a transfer to the chip, the wait for its PLLs, a pause in
-- microseconds, and the gains of the audio codec.
pub data Action : Type 0 where
  bulk_write : List ℕ → Action
  wait_pll_lock : Action
  sleep : ℕ → Action
  set_gain : ℕ → ℕ → Action

-- The variables of the file, the parts of `config` it reads, and its actions, the last one first.
-- The offset is its bit pattern.
pub record Synth : Type 0 where
  pub current_band : ℕ
  pub current_power : ℕ
  pub current_freq : ℕ
  pub pending_settling_cycles : ℕ
  pub clk_cache : ℕ → ℕ
  pub xtal_freq : ℕ
  pub if_offset : ℕ
  pub threshold : ℕ
  pub band_s : List Band
  pub actions : List Action

abbrev pub act : Action → Synth → Synth
act a s = record s { actions = a ∷ s.actions }

abbrev pub pll_a : ℕ
pll_a = 26

abbrev pub pll_b : ℕ
pll_b = 34

abbrev pub ofreq_channel : ℕ
ofreq_channel = 0

abbrev pub freq_channel : ℕ
freq_channel = 1

abbrev pub audio_codec_channel : ℕ
audio_codec_channel = 2

abbrev pub msreg_base : ℕ → ℕ
msreg_base channel = 42 + 8 * channel

-- SI5351_CLK_PLL_SELECT_B; the choice of the other PLL is 0.
abbrev pub select_b : ℕ
select_b = 32

-- SI5351_R_DIV
abbrev pub r_div : ℕ → ℕ
r_div n = n * 16

unfoldable pub si5351_reset_cache : Synth → Synth
si5351_reset_cache s = record s { current_band = 0; current_freq = 0 }

unfoldable pub si5351_write : ℕ → ℕ → Synth → Synth
si5351_write reg dat s = act (bulk_write (reg ∷ dat ∷ [])) s

unfoldable pub si5351_reset_pll : ℕ → Synth → Synth
unfolding si5351_write
si5351_reset_pll mask s = si5351_write 177 (mask + 12) s

unfoldable pub si5351_setup_pll : ℕ → ℕ → ℕ → ℕ → Synth → Synth
si5351_setup_pll pll_source mult num denom s =
    act (bulk_write (pll_bytes pll_source mult num denom)) s

-- The control byte goes to the chip only if it differs from the last one. The test of `num` comes
-- after its shift, which a division by 4 leaves out.
abbrev pub control : ℕ → ℕ → ℕ → ℕ
control div num chctrl =
    if (if div == 4 then num else u32 (num * 128)) == 0 then chctrl + 12 + 64 else chctrl + 12

abbrev pub write_control : ℕ → ℕ → Synth → Synth
write_control channel chctrl s = if s.clk_cache channel == chctrl then s else record s {
  clk_cache = λ c. if c == channel then chctrl else s.clk_cache c;
  actions = bulk_write ((16 + channel) ∷ chctrl ∷ []) ∷ s.actions;
}

unfoldable pub si5351_setup_multisynth : ℕ → ℕ → ℕ → ℕ → ℕ → ℕ → Synth → Synth
si5351_setup_multisynth channel div num denom rdiv chctrl s =
    write_control channel (control div num chctrl)
      (act (bulk_write (multisynth_bytes (msreg_base channel) div num denom rdiv)) s)

-- `none` if the loop of approximate_fraction does not end.
unfoldable pub si5351_set_frequency_fixedpll : ℕ → ℕ → ℕ → ℕ → ℕ → Synth → Option Synth
unfolding si5351_setup_multisynth
si5351_set_frequency_fixedpll channel pllfreq freq rdiv chctrl s =
    approximate_fraction (pllfreq % freq) freq >>= λ r.
    let (num, denom) = r in
    some (si5351_setup_multisynth channel (u32 (pllfreq / freq)) num denom rdiv chctrl s)

unfoldable pub si5351_setup_pll_freq : ℕ → ℕ → ℕ → Synth → Option Synth
unfolding si5351_setup_pll
si5351_setup_pll_freq pll_source pllfreq div s =
    let xtal = u32 (s.xtal_freq * div) in
    approximate_fraction (pllfreq % xtal) xtal >>= λ r.
    let (num, denom) = r in some (si5351_setup_pll pll_source (u32 (pllfreq / xtal)) num denom s)
