-- ===== src/Synth/SameDiv.antt =====
-- A change of band that leaves the dividers of the two outputs as they are.
use nano_vna_x.Base.{
  ℕ, ◌*◌, ◌/◌, ◌%◌, ◌<◌, ◌≡◌, ◌≢◌, refl, sym, subst, ap, ◌∙◌, Bool, true, false, not, ◌||◌, some,
  ◌==◌, if◌then◌else◌, get_elem?, arith, Bool-cases, inl, inr, u32,
}
use nano_vna_x.Base.Options.{◌>>=◌, >>=-eq-some}
use nano_vna_x.Synth.Bands.{Band, fixed_pll, fixed_mult}
use nano_vna_x.Synth.Divided.{block-setup_multisynth_other}
use nano_vna_x.Synth.Driver.{
  Synth, pll_a, pll_b, msreg_base, audio_codec_channel, r_div, select_b, si5351_reset_pll,
  si5351_write, si5351_setup_pll, si5351_setup_multisynth, si5351_setup_pll_freq,
  si5351_set_frequency_fixedpll,
}
use nano_vna_x.Synth.Fraction.{approximate_fraction}
use nano_vna_x.Synth.Registers.{pll_bytes, register_bytes}
use nano_vna_x.Synth.Sent.{block}
use nano_vna_x.Synth.Tune.{
  Delays, Choice, check_power, check_gain, setup_fixed_mult, tune_fixed_mult, end_change, tune,
  retune,
}

some_eq : {s t : Synth} → some s ≡ some t → s ≡ t
some_eq e = cc

-- The last transfer to the divider of a channel is the same.
abbrev pub SameDivider : ℕ → Synth → Synth → Type 0
SameDivider channel s t =
    block (msreg_base channel) t.actions ≡ block (msreg_base channel) s.actions

setup_pll_freq-SameDivider :
    (channel pll_source pllfreq div : ℕ) (s t : Synth)
    → pll_source < 42
    → si5351_setup_pll_freq pll_source pllfreq div s ≡ some t
    → SameDivider channel s t
unfolding si5351_setup_pll_freq si5351_setup_pll pll_bytes register_bytes block
setup_pll_freq-SameDivider channel pll_source pllfreq div s t small h =
    let xtal = u32 (s.xtal_freq * div) in
    let ((num, denom), found, e) =
      >>=-eq-some (approximate_fraction (pllfreq % xtal) xtal)
        (λ r.
          let (num, denom) = r in
          some (si5351_setup_pll pll_source (u32 (pllfreq / xtal)) num denom s))
        h in
    let other : (pll_source == msreg_base channel) ≡ false = ground (arith, small) in
    subst (SameDivider channel s) (some_eq e) (rw other refl)

codec-SameDivider :
    (channel pllfreq freq rdiv chctrl : ℕ) (s t : Synth)
    → channel < 2
    → si5351_set_frequency_fixedpll audio_codec_channel pllfreq freq rdiv chctrl s ≡ some t
    → SameDivider channel s t
unfolding si5351_set_frequency_fixedpll
codec-SameDivider channel pllfreq freq rdiv chctrl s t few h =
    let ((num, denom), found, e) =
      >>=-eq-some (approximate_fraction (pllfreq % freq) freq)
        (λ r.
          let (num, denom) = r in
          some (
            si5351_setup_multisynth audio_codec_channel (u32 (pllfreq / freq)) num denom rdiv chctrl
              s))
        h in
    subst (SameDivider channel s) (some_eq e) (
      block-setup_multisynth_other channel audio_codec_channel (u32 (pllfreq / freq)) num denom rdiv
        chctrl s (omega arith) (λ same. absurd (omega arith)))

tune_fixed_mult-SameDivider :
    (channel : ℕ) (old b : Band) (c : Choice) (s t : Synth)
    → channel < 2
    → old.div ≡ b.div
    → tune_fixed_mult old b c s ≡ some t
    → SameDivider channel s t
unfolding tune_fixed_mult setup_fixed_mult
tune_fixed_mult-SameDivider channel old b c s t few same h =
    let (s1, e1, h1) = >>=-eq-some (si5351_setup_pll_freq pll_a (c.ofreq * b.div) b.omul s) _ h in
    let (s2, e2, h2) = >>=-eq-some (si5351_setup_pll_freq pll_b (c.freq * b.div) b.mul s1) _ h1 in
    let skipped : setup_fixed_mult old b c s2 ≡ s2 = skips (ground (arith, same)) s2 in
    codec-SameDivider channel (c.freq * b.div) (8000000 * b.mul) (r_div 0) select_b s2 t few (
      ap
        (λ s.
          si5351_set_frequency_fixedpll audio_codec_channel (c.freq * b.div) (8000000 * b.mul)
            (r_div 0) select_b s)
        (sym skipped)
      ∙ h2)
    ∙ setup_pll_freq-SameDivider channel pll_b (c.freq * b.div) b.mul s1 s2 (omega arith) e2
    ∙ setup_pll_freq-SameDivider channel pll_a (c.ofreq * b.div) b.omul s s1 (omega arith) e1
  where
    skips : (old.div == b.div) ≡ true → (s2 : Synth) → setup_fixed_mult old b c s2 ≡ s2
    skips e s2 = rw e refl

gain-SameDivider :
    (channel : ℕ) (changed : Bool) (old b : Band) (s : Synth)
    → SameDivider channel s (if changed then check_gain old b s else s)
unfolding block
gain-SameDivider channel false old b s = refl
gain-SameDivider channel true old b s =
    elim (Bool-cases (not (old.l_gain == b.l_gain) || not (old.r_gain == b.r_gain))) [
      | inl changed ↦ rw changed refl
      | inr same ↦ rw same refl
    ]

pub end_change-SameDivider :
    (channel : ℕ) (delays : Delays) (changed : Bool) (delay : ℕ) (c : Choice) (s : Synth)
    → channel < 2
    → SameDivider channel s (end_change delays changed delay c s).1
unfolding end_change si5351_reset_pll si5351_write block
end_change-SameDivider channel delays true delay c s few =
    let other : (177 == msreg_base channel) ≡ false = ground arith in rw other refl
end_change-SameDivider channel delays false delay c s few = refl

result_eq : {r : ℕ × Synth} {d : ℕ} {t : Synth} → some r ≡ some (d, t) → r.1 ≡ t
result_eq e = cc

tune-SameDivider :
    (channel : ℕ) (delays : Delays) (old b : Band) (c : Choice) (s : Synth) {delay : ℕ} {t : Synth}
    → channel < 2
    → (b.mode == fixed_pll) ≡ false
    → (b.mode == fixed_mult) ≡ true
    → old.div ≡ b.div
    → tune delays old b c s ≡ some (delay, t)
    → SameDivider channel s t
unfolding tune
tune-SameDivider channel delays old b c s {delay = delay} {t = t} few mode mode' same h =
    let (u, e, ended) =
      >>=-eq-some (tune_fixed_mult old b c s1)
        (λ u. some (end_change delays changed delays.band_3_4 c u)) (sym (opened mode mode') ∙ h) in
    subst (SameDivider channel s) (result_eq ended) (
      end_change-SameDivider channel delays changed delays.band_3_4 c u few
      ∙ tune_fixed_mult-SameDivider channel old b c s1 u few same e
      ∙ gain-SameDivider channel changed old b s)
  where
    changed : Bool
    changed = not (s.current_band == c.band)

    s1 : Synth
    s1 = if changed then check_gain old b s else s

    opened :
        (b.mode == fixed_pll) ≡ false
        → (b.mode == fixed_mult) ≡ true
        → tune delays old b c s ≡ (
            tune_fixed_mult old b c s1 >>= λ u.
            some (end_change delays changed delays.band_3_4 c u))
    opened m m' = rw (m, m') refl

-- A call with the same drive strength and another frequency, for a band of a fixed multiplier whose
-- divider is the byte that the band before it has for its divider or for its PLL, sends nothing to
-- the dividers of the two outputs.
pub retune-SameDivider :
    (channel : ℕ) (delays : Delays) (old b : Band) (c : Choice) (s : Synth) {delay : ℕ} {t : Synth}
    → channel < 2
    → get_elem? s.band_s s.current_band ≡ some old
    → get_elem? s.band_s c.band ≡ some b
    → b.mode ≡ fixed_mult
    → old.div ≡ b.div
    → s.current_power ≡ c.drive_strength
    → c.freq ≢ s.current_freq
    → retune delays c s ≡ some (delay, t)
    → SameDivider channel s t
unfolding retune check_power
retune-SameDivider channel delays old b c s few e1 e2 mode same power other h =
    tune-SameDivider channel delays old b c s few (ground (arith, mode)) (ground (arith, mode)) same
      (sym (opened (ground (arith, power)) (ground (arith, other)) e1 e2) ∙ h)
  where
    opened :
        (s.current_power == c.drive_strength) ≡ true
        → (c.freq == s.current_freq) ≡ false
        → get_elem? s.band_s s.current_band ≡ some old
        → get_elem? s.band_s c.band ≡ some b
        → retune delays c s ≡ tune delays old b c s
    opened p f o o' = rw (p, f, o, o') refl
