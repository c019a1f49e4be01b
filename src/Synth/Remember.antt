-- ===== src/Synth/Remember.antt =====
-- What the driver remembers after a call, and what a call makes of it.
use nano_vna_x.Base.{
  ℕ, ◌+◌, ◌≡◌, refl, sym, ap, ◌∙◌, ◌⊎◌, inl, inr, Bool, true, false, Option, some, List, [], ◌∷◌,
  ◌==◌, if◌then◌else◌, arith, Bool-cases, not, subst, get_elem?,
}
use nano_vna_x.Base.Options.{◌>>=◌, >>=-eq-some}
use nano_vna_x.Synth.Bands.{Band, fixed_pll, fixed_mult}
use nano_vna_x.Synth.Does.{
  Does, done, acts, controls, Does-trans, check_gain-Does, tune_fixed_pll-Does,
  tune_fixed_mult-Does,
}
use nano_vna_x.Synth.Driver.{
  sleep, bulk_write, Synth, act, write_control, si5351_reset_cache, si5351_reset_pll, si5351_write,
}
use nano_vna_x.Synth.Tune.{
  Delays, Choice, check_power, check_gain, tune_fixed_pll, tune_fixed_mult, end_change, tune,
  retune,
}

-- The parts of the state that programming the chip leaves alone.
abbrev pub kept : Synth → ℕ × ℕ × ℕ × ℕ × ℕ × ℕ × List Band
kept s = (
  s.current_band, s.current_power, s.current_freq, s.xtal_freq, s.if_offset, s.threshold, s.band_s,
)

kept-write_control :
    (channel chctrl : ℕ) (s : Synth) → kept (write_control channel chctrl s) ≡ kept s
kept-write_control channel chctrl s = elim (Bool-cases (s.clk_cache channel == chctrl)) [
  | inl same ↦ rw same refl
  | inr new ↦ rw new refl
]

pub kept-Does : {s t : Synth} → Does s t → kept t ≡ kept s
kept-Does done = refl
kept-Does (acts a plain d) = kept-Does d
kept-Does (controls {t = t} channel chctrl few d) =
    kept-write_control channel chctrl t ∙ kept-Does d

-- A state with the frequency, the band and the settling cycles set.
abbrev pub note : ℕ → ℕ → ℕ → Synth → Synth
note freq band cycles s = record s {
  current_freq = freq;
  current_band = band;
  pending_settling_cycles = cycles;
}

-- How a call ends: after programming the chip, it notes the frequency and the band.
abbrev pub Tunes : Choice → Synth → Synth → Type 0
Tunes c s t = (u : Synth) × (cycles : ℕ) × Does s u × (t ≡ note c.freq c.band cycles u)

result_eq : {r : ℕ × Synth} {d : ℕ} {t : Synth} → some r ≡ some (d, t) → r.1 ≡ t
result_eq e = cc

same_band : {s u : Synth} → Does s u → u.current_band ≡ s.current_band
same_band d = ap (λ k. k.0) (kept-Does d)

end_change-Tunes :
    (delays : Delays) (delay : ℕ) (c : Choice) (s u : Synth) (changed : Bool)
    → not (s.current_band == c.band) ≡ changed
    → Does s u
    → Tunes c s (end_change delays changed delay c u).1
unfolding end_change si5351_reset_pll si5351_write
end_change-Tunes delays delay c s u true e d = (
  si5351_reset_pll (32 + 128) (act (sleep 4000) u),
  1,
  acts (bulk_write (177 ∷ 172 ∷ [])) (omega arith) (acts (sleep 4000) refl d),
  refl,
)
end_change-Tunes delays delay c s u false e d =
    let same : s.current_band ≡ c.band = ground arith in
    (u, u.pending_settling_cycles, d, rw (sym same, sym (same_band d)) refl)

pub gain-Does :
    (changed : Bool) (old b : Band) (s : Synth) → Does s (if changed then check_gain old b s else s)
gain-Does true old b s = check_gain-Does old b s
gain-Does false old b s = done

-- The end of the call after the mode's part.
then_end :
    (delays : Delays) (delay' : ℕ) (c : Choice) (s : Synth) (o : Option Synth) {delay : ℕ}
    {t : Synth}
    → ((u : Synth) → o ≡ some u → Does s u)
    → (o >>= λ u. some (end_change delays (not (s.current_band == c.band)) delay' c u))
      ≡ some (delay, t)
    → Tunes c s t
then_end delays delay' c s o programs h =
    let (u, e, ended) =
      >>=-eq-some o (λ u. some (end_change delays (not (s.current_band == c.band)) delay' c u)) h in
    subst (Tunes c s) (result_eq ended)
      (end_change-Tunes delays delay' c s u (not (s.current_band == c.band)) refl (programs u e))

tune_mode-Tunes :
    (delays : Delays) (old b : Band) (c : Choice) (s s1 : Synth) (pll mult : Bool) {delay : ℕ}
    {t : Synth}
    → Does s s1
    → (let changed = not (s.current_band == c.band) in
        if pll
        then (tune_fixed_pll changed b c s1 >>= λ u.
            some (end_change delays changed delays.band_1_2 c u))
        else if mult
        then (tune_fixed_mult old b c s1 >>= λ u.
            some (end_change delays changed delays.band_3_4 c u))
        else some (end_change delays changed 0 c s1))
      ≡ some (delay, t)
    → Tunes c s t
tune_mode-Tunes delays old b c s s1 true mult d h =
    then_end delays delays.band_1_2 c s (tune_fixed_pll (not (s.current_band == c.band)) b c s1)
      (λ u e. Does-trans d (tune_fixed_pll-Does (not (s.current_band == c.band)) b c s1 u e)) h
tune_mode-Tunes delays old b c s s1 false true d h =
    then_end delays delays.band_3_4 c s (tune_fixed_mult old b c s1)
      (λ u e. Does-trans d (tune_fixed_mult-Does old b c s1 u e)) h
tune_mode-Tunes delays old b c s s1 false false d h =
    subst (Tunes c s) (result_eq h)
      (end_change-Tunes delays 0 c s s1 (not (s.current_band == c.band)) refl d)

tune-Tunes :
    (delays : Delays) (old b : Band) (c : Choice) (s : Synth) {delay : ℕ} {t : Synth}
    → tune delays old b c s ≡ some (delay, t)
    → Tunes c s t
unfolding tune
tune-Tunes delays old b c s h =
    tune_mode-Tunes delays old b c s
      (if not (s.current_band == c.band) then check_gain old b s else s) (b.mode == fixed_pll)
      (b.mode == fixed_mult) (gain-Does (not (s.current_band == c.band)) old b s) h

-- A call either changes nothing more than the drive strength, or tunes.
pub retune-Tunes :
    (delays : Delays) (c : Choice) (s : Synth) {delay : ℕ} {t : Synth}
    → retune delays c s ≡ some (delay, t)
    → ((c.freq ≡ (check_power c.drive_strength s).current_freq)
        × (t ≡ check_power c.drive_strength s))
      ⊎ Tunes c (check_power c.drive_strength s) t
unfolding retune
retune-Tunes delays c s {delay = delay} {t = t} h =
    go (c.freq == (check_power c.drive_strength s).current_freq) refl h
  where
    s' : Synth
    s' = check_power c.drive_strength s

    go :
        (b : Bool)
        → (c.freq == s'.current_freq) ≡ b
        → (if b
            then some (delays.channel_change, s')
            else (get_elem? s'.band_s s'.current_band >>= λ old.
                get_elem? s'.band_s c.band >>= λ b'. tune delays old b' c s'))
          ≡ some (delay, t)
        → ((c.freq ≡ s'.current_freq) × (t ≡ s')) ⊎ Tunes c s' t
    go true e k = inl (ground arith, sym (result_eq k))
    go false e k =
        let (old, e1, k1) = >>=-eq-some (get_elem? s'.band_s s'.current_band) _ k in
        let (b', e2, k2) = >>=-eq-some (get_elem? s'.band_s c.band) _ k1 in
        inr (tune-Tunes delays old b' c s' k2)

check_power-power :
    (drive_strength : ℕ) (s : Synth) → (check_power drive_strength s).current_power ≡ drive_strength
unfolding check_power si5351_reset_cache
check_power-power drive_strength s = ground arith

-- What chooses the band: it stays as it is.
abbrev pub settings : Synth → ℕ × ℕ × List Band
settings s = (s.if_offset, s.threshold, s.band_s)

settings-check_power :
    (drive_strength : ℕ) (s : Synth) → settings (check_power drive_strength s) ≡ settings s
unfolding check_power si5351_reset_cache
settings-check_power drive_strength s = elim (Bool-cases (s.current_power == drive_strength)) [
  | inl same ↦ rw same refl
  | inr new ↦ rw new refl
]

pub retune-remembers :
    (delays : Delays) (c : Choice) (s : Synth) {delay : ℕ} {t : Synth}
    → retune delays c s ≡ some (delay, t)
    → (t.current_freq ≡ c.freq) × (t.current_power ≡ c.drive_strength) × (settings t ≡ settings s)
retune-remembers delays c s h = elim (retune-Tunes delays c s h) [
  | inl (e, same) ↦ (
    ap (λ t. t.current_freq) same ∙ sym e,
    ap (λ t. t.current_power) same ∙ check_power-power c.drive_strength s,
    ap settings same ∙ settings-check_power c.drive_strength s,
  )
  | inr (u, cycles, d, same) ↦ (
    ap (λ t. t.current_freq) same,
    ap (λ t. t.current_power) same
        ∙ ap (λ k. k.1) (kept-Does d)
        ∙ check_power-power c.drive_strength s,
    ap settings same
        ∙ ap (λ k. (k.4, k.5, k.6)) (kept-Does d)
        ∙ settings-check_power c.drive_strength s,
  )
]

-- So a second call with the same choice of frequency and drive changes nothing.
pub retune-remembered :
    (delays : Delays) (c : Choice) (t : Synth)
    → t.current_freq ≡ c.freq
    → t.current_power ≡ c.drive_strength
    → retune delays c t ≡ some (delays.channel_change, t)
unfolding retune check_power
retune-remembered delays c t e1 e2 =
    let same_power : (t.current_power == c.drive_strength) ≡ true = ground (arith, e2) in
    let same_freq : (c.freq == t.current_freq) ≡ true = ground (arith, e1) in
    rw (same_power, same_freq) refl
