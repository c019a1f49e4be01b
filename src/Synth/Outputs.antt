-- ===== src/Synth/Outputs.antt =====
-- The two outputs in a band of a fixed PLL.
use nano_vna_x.Base.{
  ℕ, ◌*◌, ◌/◌, ◌%◌, ◌^◌, ◌≤◌, ◌<◌, ◌≡◌, ◌≢◌, refl, subst, ap, ◌∙◌, Bool, true, false, some, arith,
  u32,
}
use nano_vna_x.Base.Options.{>>=-eq-some, >>=-some}
use nano_vna_x.Synth.Bands.{Band}
use nano_vna_x.Synth.Divided.{
  Divides, IsDivisible, Divides-same, si5351_set_frequency_fixedpll-Divides,
  block-setup_multisynth_other,
}
use nano_vna_x.Synth.Does.{fixedpll-Does, setup_fixed_pll-Does}
use nano_vna_x.Synth.Driver.{
  Synth, act, wait_pll_lock, pll_a, pll_b, msreg_base, audio_codec_channel, ofreq_channel,
  freq_channel, r_div, select_b, si5351_setup_pll, si5351_setup_multisynth,
  si5351_set_frequency_fixedpll,
}
use nano_vna_x.Synth.Fraction.{approximate_fraction}
use nano_vna_x.Synth.Remember.{kept-Does}
use nano_vna_x.Synth.Sent.{block}
use nano_vna_x.Synth.Tune.{Choice, drives, setup_fixed_pll, tune_fixed_pll}

some_eq : {s t : Synth} → some s ≡ some t → s ≡ t
some_eq e = cc

-- What programs one channel leaves the divider of another one.
fixedpll-other :
    (channel channel' pllfreq freq rdiv chctrl : ℕ) (s t : Synth)
    → channel' < 3
    → channel' ≢ channel
    → si5351_set_frequency_fixedpll channel' pllfreq freq rdiv chctrl s ≡ some t
    → block (msreg_base channel) t.actions ≡ block (msreg_base channel) s.actions
unfolding si5351_set_frequency_fixedpll
fixedpll-other channel channel' pllfreq freq rdiv chctrl s t few other h =
    let ((num, denom), found, e) =
      >>=-eq-some (approximate_fraction (pllfreq % freq) freq)
        (λ r.
          let (num, denom) = r in
          some (si5351_setup_multisynth channel' (u32 (pllfreq / freq)) num denom rdiv chctrl s))
        h in
    subst (λ t. block (msreg_base channel) t.actions ≡ block (msreg_base channel) s.actions)
      (some_eq e)
      (block-setup_multisynth_other channel channel' (u32 (pllfreq / freq)) num denom rdiv chctrl s
        few other)

-- The PLLs are set up, for a crystal within its limits.
setup_fixed_pll-returns :
    (changed : Bool) (b : Band) (s : Synth)
    → 24000000 ≤ s.xtal_freq
    → s.xtal_freq ≤ 28000000
    → (t : Synth) × (setup_fixed_pll changed b s ≡ some t)
unfolding setup_fixed_pll
setup_fixed_pll-returns false b s low high = (s, refl)
setup_fixed_pll-returns true b s low high =
    let (t, e, d) =
      si5351_set_frequency_fixedpll-Divides audio_codec_channel (u32 (s.xtal_freq * 32)) 8000000
        (r_div 0) select_b
        (act wait_pll_lock (si5351_setup_pll pll_b 32 0 1 (si5351_setup_pll pll_a b.div 0 1 s)))
        (omega arith) (omega arith, omega arith, omega arith, omega arith) (omega arith) in
    (t, e)

-- In a band of a fixed PLL, for a crystal within 2 MHz of 26 MHz, and two frequencies that the two
-- dividers can reach, the call succeeds, and the chip reads for the output and for the offset output
-- the ratios of the PLL's frequency to theirs, as close as the fraction.
pub tune_fixed_pll-Divides :
    (changed : Bool) (b : Band) (c : Choice) (s : Synth)
    → 24000000 ≤ s.xtal_freq
    → s.xtal_freq ≤ 28000000
    → IsDivisible (b.omul * s.xtal_freq * b.div) c.ofreq
    → IsDivisible (b.mul * s.xtal_freq * b.div) c.freq
    → c.rdiv % 2 ^ 4 ≡ 0
    → (t : Synth) × (tune_fixed_pll changed b c s ≡ some t)
      × Divides ofreq_channel (b.omul * s.xtal_freq * b.div) c.ofreq c.rdiv t.actions
      × Divides freq_channel (b.mul * s.xtal_freq * b.div) c.freq c.rdiv t.actions
unfolding tune_fixed_pll
tune_fixed_pll-Divides changed b c s low high ofits fits aligned =
    let (s1, e1) = setup_fixed_pll-returns changed b s low high in
    let x1 : s1.xtal_freq ≡ s.xtal_freq =
      ap (λ k. k.3) (kept-Does (setup_fixed_pll-Does changed b s s1 e1)) in
    let (s2, e2, d2) =
      si5351_set_frequency_fixedpll-Divides ofreq_channel (b.omul * s.xtal_freq * b.div) c.ofreq
        c.rdiv (drives b c.drive_strength).1 s1 (omega arith) ofits aligned in
    let x2 : s2.xtal_freq ≡ s.xtal_freq =
      ap (λ k. k.3)
        (kept-Does (
          fixedpll-Does ofreq_channel (b.omul * s.xtal_freq * b.div) c.ofreq c.rdiv
            (drives b c.drive_strength).1 s1 s2 (omega arith) e2))
      ∙ x1 in
    let (t, e3, d3) =
      si5351_set_frequency_fixedpll-Divides freq_channel (b.mul * s.xtal_freq * b.div) c.freq c.rdiv
        (drives b c.drive_strength).0 s2 (omega arith) fits aligned in
    let kept_block =
      fixedpll-other ofreq_channel freq_channel (b.mul * s.xtal_freq * b.div) c.freq c.rdiv
        (drives b c.drive_strength).0 s2 t (omega arith) (λ same. absurd (omega arith)) e3 in
    (
      t,
      opened s1 s2 t e1
          (ap
              (λ x.
                si5351_set_frequency_fixedpll ofreq_channel (b.omul * x * b.div) c.ofreq c.rdiv
                  (drives b c.drive_strength).1 s1)
              x1
            ∙ e2)
          (ap
              (λ x.
                si5351_set_frequency_fixedpll freq_channel (b.mul * x * b.div) c.freq c.rdiv
                  (drives b c.drive_strength).0 s2)
              x2
            ∙ e3),
      Divides-same ofreq_channel (b.omul * s.xtal_freq * b.div) c.ofreq c.rdiv s2.actions t.actions
          kept_block d2,
      d3,
    )
  where
    opened :
        (s1 s2 t : Synth)
        → setup_fixed_pll changed b s ≡ some s1
        → si5351_set_frequency_fixedpll ofreq_channel
            (b.omul * s1.xtal_freq * b.div)
            c.ofreq
            c.rdiv
            (drives b c.drive_strength).1
            s1
          ≡ some s2
        → si5351_set_frequency_fixedpll freq_channel
            (b.mul * s2.xtal_freq * b.div)
            c.freq
            c.rdiv
            (drives b c.drive_strength).0
            s2
          ≡ some t
        → tune_fixed_pll changed b c s ≡ some t
    opened s1 s2 t e1 e2 e3 = >>=-some _ e1 (>>=-some _ e2 e3)
