-- ===== src/Synth/Does.antt =====
-- What programming the chip does: a sequence of actions and of writes to the control registers that
-- go through the cache.
use nano_vna_x.Base.{
  ℕ, ◌+◌, ◌*◌, ◌/◌, ◌%◌, ◌≤◌, ◌<◌, ◌≡◌, refl, subst, Bool, true, false, some, [], ◌∷◌, ◌==◌, u32,
  arith, Bool-cases, inl, inr, not, ◌||◌,
}
use nano_vna_x.Base.Options.{>>=-eq-some}
use nano_vna_x.Synth.Bands.{Band}
use nano_vna_x.Synth.Driver.{
  Action, bulk_write, wait_pll_lock, sleep, set_gain, Synth, act, control, write_control,
  msreg_base, pll_a, pll_b, select_b, r_div, ofreq_channel, freq_channel, audio_codec_channel,
  si5351_setup_pll, si5351_setup_multisynth, si5351_set_frequency_fixedpll, si5351_setup_pll_freq,
}
use nano_vna_x.Synth.Fraction.{approximate_fraction}
use nano_vna_x.Synth.Registers.{register_bytes, pll_bytes, multisynth_bytes}
use nano_vna_x.Synth.Tune.{
  Choice, check_gain, drives, setup_fixed_pll, tune_fixed_pll, setup_fixed_mult, tune_fixed_mult,
}

-- An action that does not write the control registers.
abbrev pub IsPlain : Action → Type 0
IsPlain (bulk_write []) = true ≡ true
IsPlain (bulk_write (reg ∷ bytes)) = 19 ≤ reg
IsPlain wait_pll_lock = true ≡ true
IsPlain (sleep us) = true ≡ true
IsPlain (set_gain l r) = true ≡ true

pub data Does (s : Synth) : Synth → Type 0 where
  done : Does s s
  acts : {t : Synth} (a : Action) → IsPlain a → Does s t → Does s (act a t)
  controls :
      {t : Synth} (channel chctrl : ℕ)
      → channel < 3
      → Does s t
      → Does s (write_control channel chctrl t)

pub Does-trans : {s t r : Synth} → Does s t → Does t r → Does s r
Does-trans d done = d
Does-trans d (acts a plain e) = acts a plain (Does-trans d e)
Does-trans d (controls channel chctrl few e) = controls channel chctrl few (Does-trans d e)

multisynth_bytes-IsPlain :
    (base div num denom rdiv : ℕ)
    → 19 ≤ base
    → IsPlain (bulk_write (multisynth_bytes base div num denom rdiv))
unfolding multisynth_bytes register_bytes
multisynth_bytes-IsPlain base div num denom rdiv far = elim (Bool-cases (div == 4)) [
  | inl four ↦ rw four far
  | inr more ↦ rw more far
]

setup_multisynth-Does :
    (channel div num denom rdiv chctrl : ℕ) (s : Synth)
    → channel < 3
    → Does s (si5351_setup_multisynth channel div num denom rdiv chctrl s)
unfolding si5351_setup_multisynth
setup_multisynth-Does channel div num denom rdiv chctrl s few =
    controls channel (control div num chctrl) few (
      acts (bulk_write (multisynth_bytes (msreg_base channel) div num denom rdiv))
        (multisynth_bytes-IsPlain (msreg_base channel) div num denom rdiv (omega arith)) done)

setup_pll-Does :
    (pll_source mult num denom : ℕ) (s : Synth)
    → 19 ≤ pll_source
    → Does s (si5351_setup_pll pll_source mult num denom s)
unfolding si5351_setup_pll pll_bytes register_bytes
setup_pll-Does pll_source mult num denom s far =
    acts (bulk_write (pll_bytes pll_source mult num denom)) far done

-- The result of a call that succeeds.
some_eq : {s t : Synth} → some s ≡ some t → s ≡ t
some_eq e = cc

pub fixedpll-Does :
    (channel pllfreq freq rdiv chctrl : ℕ) (s t : Synth)
    → channel < 3
    → si5351_set_frequency_fixedpll channel pllfreq freq rdiv chctrl s ≡ some t
    → Does s t
unfolding si5351_set_frequency_fixedpll
fixedpll-Does channel pllfreq freq rdiv chctrl s t few h =
    let ((num, denom), found, e) =
      >>=-eq-some (approximate_fraction (pllfreq % freq) freq)
        (λ r.
          let (num, denom) = r in
          some (si5351_setup_multisynth channel (u32 (pllfreq / freq)) num denom rdiv chctrl s))
        h in
    subst (Does s) (some_eq e)
      (setup_multisynth-Does channel (u32 (pllfreq / freq)) num denom rdiv chctrl s few)

setup_pll_freq-Does :
    (pll_source pllfreq div : ℕ) (s t : Synth)
    → 19 ≤ pll_source
    → si5351_setup_pll_freq pll_source pllfreq div s ≡ some t
    → Does s t
unfolding si5351_setup_pll_freq
setup_pll_freq-Does pll_source pllfreq div s t far h =
    let xtal = u32 (s.xtal_freq * div) in
    let ((num, denom), found, e) =
      >>=-eq-some (approximate_fraction (pllfreq % xtal) xtal)
        (λ r.
          let (num, denom) = r in
          some (si5351_setup_pll pll_source (u32 (pllfreq / xtal)) num denom s))
        h in
    subst (Does s) (some_eq e) (setup_pll-Does pll_source (u32 (pllfreq / xtal)) num denom s far)

pub check_gain-Does : (old b : Band) (s : Synth) → Does s (check_gain old b s)
check_gain-Does old b s =
    elim (Bool-cases (not (old.l_gain == b.l_gain) || not (old.r_gain == b.r_gain))) [
      | inl changed ↦ rw changed (acts (set_gain b.l_gain b.r_gain) refl done)
      | inr same ↦ rw same done
    ]

pub setup_fixed_pll-Does :
    (changed : Bool) (b : Band) (s t : Synth) → setup_fixed_pll changed b s ≡ some t → Does s t
unfolding setup_fixed_pll
setup_fixed_pll-Does true b s t h =
    let first = setup_pll-Does pll_a b.div 0 1 s (omega arith) in
    let second = setup_pll-Does pll_b 32 0 1 (si5351_setup_pll pll_a b.div 0 1 s) (omega arith) in
    Does-trans (acts wait_pll_lock refl (Does-trans first second)) (
      fixedpll-Does audio_codec_channel (u32 (s.xtal_freq * 32)) 8000000 (r_div 0) select_b
        (act wait_pll_lock (si5351_setup_pll pll_b 32 0 1 (si5351_setup_pll pll_a b.div 0 1 s))) t
        (omega arith) h)
setup_fixed_pll-Does false b s t h = subst (Does s) (some_eq h) done

pub tune_fixed_pll-Does :
    (changed : Bool) (b : Band) (c : Choice) (s t : Synth)
    → tune_fixed_pll changed b c s ≡ some t
    → Does s t
unfolding tune_fixed_pll
tune_fixed_pll-Does changed b c s t h =
    let (s1, e1, h1) = >>=-eq-some (setup_fixed_pll changed b s) _ h in
    let (s2, e2, h2) =
      >>=-eq-some
        (si5351_set_frequency_fixedpll ofreq_channel (b.omul * s1.xtal_freq * b.div) c.ofreq c.rdiv
          (drives b c.drive_strength).1 s1)
        _ h1 in
    Does-trans (setup_fixed_pll-Does changed b s s1 e1) (
      Does-trans
        (fixedpll-Does ofreq_channel (b.omul * s1.xtal_freq * b.div) c.ofreq c.rdiv
          (drives b c.drive_strength).1 s1 s2 (omega arith) e2)
        (fixedpll-Does freq_channel (b.mul * s2.xtal_freq * b.div) c.freq c.rdiv
          (drives b c.drive_strength).0 s2 t (omega arith) h2))

setup_fixed_mult-Does :
    (old b : Band) (c : Choice) (s : Synth) → Does s (setup_fixed_mult old b c s)
unfolding setup_fixed_mult
setup_fixed_mult-Does old b c s = elim (Bool-cases (old.div == b.div)) [
  | inl same ↦ rw same done
  | inr new ↦ rw new (
      Does-trans
        (setup_multisynth-Does ofreq_channel b.div 0 1 (r_div 0) (drives b c.drive_strength).1 s
          (omega arith))
        (setup_multisynth-Does freq_channel b.div 0 1 (r_div 0)
          ((drives b c.drive_strength).0 + select_b)
          (si5351_setup_multisynth ofreq_channel b.div 0 1 (r_div 0) (drives b c.drive_strength).1
            s)
          (omega arith)))
]

pub tune_fixed_mult-Does :
    (old b : Band) (c : Choice) (s t : Synth) → tune_fixed_mult old b c s ≡ some t → Does s t
unfolding tune_fixed_mult
tune_fixed_mult-Does old b c s t h =
    let (s1, e1, h1) = >>=-eq-some (si5351_setup_pll_freq pll_a (c.ofreq * b.div) b.omul s) _ h in
    let (s2, e2, h2) = >>=-eq-some (si5351_setup_pll_freq pll_b (c.freq * b.div) b.mul s1) _ h1 in
    Does-trans
      (Does-trans (setup_pll_freq-Does pll_a (c.ofreq * b.div) b.omul s s1 (omega arith) e1)
        (setup_pll_freq-Does pll_b (c.freq * b.div) b.mul s1 s2 (omega arith) e2))
      (Does-trans (setup_fixed_mult-Does old b c s2) (
        fixedpll-Does audio_codec_channel (c.freq * b.div) (8000000 * b.mul) (r_div 0) select_b
          (setup_fixed_mult old b c s2) t (omega arith) h2))
