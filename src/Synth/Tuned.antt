-- ===== src/Synth/Tuned.antt =====
-- The whole call in a band of a fixed PLL.
use nano_vna_x.Base.{
  ℕ, ◌*◌, ◌%◌, ◌^◌, ◌≤◌, ◌≡◌, ◌≢◌, refl, sym, subst, ap, ◌∙◌, Bool, true, false, not, Option, some,
  ◌==◌, if◌then◌else◌, get_elem?, arith,
}
use nano_vna_x.Base.Options.{◌>>=◌, >>=-some}
use nano_vna_x.Synth.Bands.{Band, fixed_pll}
use nano_vna_x.Synth.Divided.{Divides, Divides-same, IsDivisible}
use nano_vna_x.Synth.Driver.{Synth, ofreq_channel, freq_channel}
use nano_vna_x.Synth.Outputs.{tune_fixed_pll-Divides}
use nano_vna_x.Synth.Remember.{kept-Does, gain-Does}
use nano_vna_x.Synth.Repeat.{set_frequency-choice}
use nano_vna_x.Synth.SameDiv.{end_change-SameDivider}
use nano_vna_x.Synth.Tune.{
  Delays, Choice, choose, check_power, check_gain, tune_fixed_pll, end_change, tune, retune,
  si5351_set_frequency,
}

-- A crystal within 2 MHz of 26 MHz, and two frequencies that the dividers of a band reach from its PLL.
abbrev pub IsReachable : Band → Choice → ℕ → Type 0
IsReachable b c xtal_freq =
    (24000000 ≤ xtal_freq)
    × (xtal_freq ≤ 28000000)
    × IsDivisible (b.omul * xtal_freq * b.div) c.ofreq
    × IsDivisible (b.mul * xtal_freq * b.div) c.freq
    × (c.rdiv % 2 ^ 4 ≡ 0)

-- A call that succeeds and leaves both outputs at their ratios to the PLL.
abbrev pub Tuned : Band → Choice → ℕ → Option (ℕ × Synth) → Type 0
Tuned b c xtal_freq result =
    (delay : ℕ) × (t : Synth) × (result ≡ some (delay, t))
    × Divides ofreq_channel (b.omul * xtal_freq * b.div) c.ofreq c.rdiv t.actions
    × Divides freq_channel (b.mul * xtal_freq * b.div) c.freq c.rdiv t.actions

tune-Tuned :
    (delays : Delays) (old b : Band) (c : Choice) (s : Synth)
    → (b.mode == fixed_pll) ≡ true
    → IsReachable b c s.xtal_freq
    → Tuned b c s.xtal_freq (tune delays old b c s)
unfolding tune
tune-Tuned delays old b c s mode reach =
    subst (λ x. Tuned b c x (tune delays old b c s)) same
      (finish (subst (IsReachable b c) (sym same) reach))
  where
    changed : Bool
    changed = not (s.current_band == c.band)

    s1 : Synth
    s1 = if changed then check_gain old b s else s

    same : s1.xtal_freq ≡ s.xtal_freq
    same = ap (λ k. k.3) (kept-Does (gain-Does changed old b s))

    opened : tune delays old b c s ≡ (
        tune_fixed_pll changed b c s1 >>= λ u. some (end_change delays changed delays.band_1_2 c u))
    opened = rw mode refl

    finish : IsReachable b c s1.xtal_freq → Tuned b c s1.xtal_freq (tune delays old b c s)
    finish (low, high, ofits, fits, aligned) =
        let (u, e, d1, d2) = tune_fixed_pll-Divides changed b c s1 low high ofits fits aligned in
        let (delay, t) = end_change delays changed delays.band_1_2 c u in
        (
          delay,
          t,
          opened ∙ >>=-some _ e refl,
          Divides-same ofreq_channel (b.omul * s1.xtal_freq * b.div) c.ofreq c.rdiv u.actions
              t.actions
              (end_change-SameDivider ofreq_channel delays changed delays.band_1_2 c u
                (omega arith))
              d1,
          Divides-same freq_channel (b.mul * s1.xtal_freq * b.div) c.freq c.rdiv u.actions t.actions
              (end_change-SameDivider freq_channel delays changed delays.band_1_2 c u (omega arith))
              d2,
        )

-- For a choice of a band of a fixed PLL and of a frequency other than the one that is set, where the
-- crystal is within 2 MHz of 26 MHz and the dividers reach both frequencies, the call succeeds, and the
-- chip reads from the bytes sent for the output and for the offset output the ratios of the PLL to
-- their frequencies, each up to the error of a fraction of 20-bit terms.
pub si5351_set_frequency-Tuned :
    (delays : Delays) (freq drive_strength : ℕ) (old b : Band) (c : Choice) (s : Synth)
    → freq ≢ 0
    → choose freq drive_strength s ≡ some c
    → c.freq ≢ (check_power c.drive_strength s).current_freq
    → get_elem?
        (check_power c.drive_strength s).band_s
        (check_power c.drive_strength s).current_band
      ≡ some old
    → get_elem? (check_power c.drive_strength s).band_s c.band ≡ some b
    → b.mode ≡ fixed_pll
    → IsReachable b c (check_power c.drive_strength s).xtal_freq
    → Tuned b c
        (check_power c.drive_strength s).xtal_freq
        (si5351_set_frequency delays freq drive_strength s)
unfolding retune
si5351_set_frequency-Tuned delays freq drive_strength old b c s some_freq chosen new e1 e2 mode
      reach =
    let s' = check_power c.drive_strength s in
    let other : (c.freq == s'.current_freq) ≡ false = ground (arith, new) in
    let opened : retune delays c s ≡ tune delays old b c s' = rw (other, e1, e2) refl in
    subst (Tuned b c s'.xtal_freq)
      (sym (set_frequency-choice delays freq drive_strength s c some_freq chosen ∙ opened))
      (tune-Tuned delays old b c s' (ground (arith, mode)) reach)
