-- ===== src/Synth/Repeat.antt =====
-- A call for the frequency that is already set.
use nano_vna_x.Base.{
  ℕ, ◌+◌, ◌*◌, ◌%◌, ◌^◌, ◌≤◌, ◌<◌, ◌≡◌, ◌≢◌, refl, sym, ap, ◌∙◌, true, false, some, ◌==◌, ltb, leb,
  get_elem?, u32, arith,
}
use nano_vna_x.Base.Options.{◌>>=◌, >>=-eq-some}
use nano_vna_x.Synth.Bands.{Band, si5351_get_harmonic_lvl}
use nano_vna_x.Synth.Driver.{Synth, r_div}
use nano_vna_x.Synth.Remember.{settings, retune-remembers, retune-remembered}
use nano_vna_x.Synth.Tune.{Delays, Choice, choose, retune, si5351_set_frequency}

-- The choice depends on nothing but the settings.
choose_same :
    (freq drive_strength : ℕ) (s t : Synth)
    → settings t ≡ settings s
    → choose freq drive_strength t ≡ choose freq drive_strength s
unfolding choose
choose_same freq drive_strength s t e =
    let offset : t.if_offset ≡ s.if_offset = ap (λ k. k.0) e in
    let threshold : t.threshold ≡ s.threshold = ap (λ k. k.1) e in
    let bands : t.band_s ≡ s.band_s = ap (λ k. k.2) e in rw (offset, threshold, bands) refl

-- A successful call for a frequency that is not 0, in its two parts.
set_frequency-parts :
    (delays : Delays) (freq drive_strength : ℕ) (s : Synth) {delay : ℕ} {t : Synth}
    → freq ≢ 0
    → si5351_set_frequency delays freq drive_strength s ≡ some (delay, t)
    → (c : Choice) × (choose freq drive_strength s ≡ some c) × (retune delays c s ≡ some (delay, t))
unfolding si5351_set_frequency
set_frequency-parts delays freq drive_strength s {delay = delay} {t = t} more h =
    let e : (freq == 0) ≡ false = ground (arith, more) in
    >>=-eq-some (choose freq drive_strength s) (λ c. retune delays c s) (e' e ∙ h)
  where
    e' :
        (freq == 0) ≡ false
        → (choose freq drive_strength s >>= λ c. retune delays c s)
          ≡ si5351_set_frequency delays freq drive_strength s
    e' nonzero = rw nonzero refl

pub set_frequency-choice :
    (delays : Delays) (freq drive_strength : ℕ) (s : Synth) (c : Choice)
    → freq ≢ 0
    → choose freq drive_strength s ≡ some c
    → si5351_set_frequency delays freq drive_strength s ≡ retune delays c s
unfolding si5351_set_frequency
set_frequency-choice delays freq drive_strength s c more e =
    let nonzero : (freq == 0) ≡ false = ground (arith, more) in rw (nonzero, e) refl

-- A call for a frequency that is not 0 and that has just been set at the same drive strength sends
-- nothing and changes nothing.
pub si5351_set_frequency_twice :
    (delays : Delays) (freq drive_strength : ℕ) (s : Synth) {delay : ℕ} {t : Synth}
    → freq ≢ 0
    → si5351_set_frequency delays freq drive_strength s ≡ some (delay, t)
    → si5351_set_frequency delays freq drive_strength t ≡ some (delays.channel_change, t)
si5351_set_frequency_twice delays freq drive_strength s {t = t} more h =
    let (c, chosen, tuned) = set_frequency-parts delays freq drive_strength s more h in
    let (e1, e2, e3) = retune-remembers delays c s tuned in
    set_frequency-choice delays freq drive_strength t c more
      (choose_same freq drive_strength s t e3 ∙ chosen)
    ∙ retune-remembered delays c t e1 e2

-- The choice in the range that is divided by 16.
choose_16 :
    (freq drive_strength : ℕ) (s : Synth) (first : Band)
    → get_elem? s.band_s 1 ≡ some first
    → first.freq ≤ freq
    → freq ≤ 1000000
    → (c : Choice) × (choose freq drive_strength s ≡ some c)
      × (c.freq ≡ 16 * freq)
      × (c.drive_strength ≡ drive_strength)
unfolding choose
choose_16 freq drive_strength s first e low high =
    let above : ltb freq first.freq ≡ false = ground arith in
    let below : leb freq 1000000 ≡ true = ground arith in
    let c : Choice = record {
      freq = u32 (freq * 2 ^ 4);
      ofreq = u32 (u32 (freq + s.if_offset) * 2 ^ 4);
      rdiv = r_div 4;
      drive_strength = drive_strength;
      band = 2;
    } in
    (c, rw (e, above, below) refl, omega arith, refl)

-- The choice above 1 MHz.
choose_whole :
    (freq drive_strength band : ℕ) (s : Synth) (first : Band)
    → get_elem? s.band_s 1 ≡ some first
    → first.freq ≤ freq
    → 1000000 < freq
    → si5351_get_harmonic_lvl s.threshold freq s.band_s ≡ some band
    → (c : Choice) × (choose freq drive_strength s ≡ some c)
      × (c.freq ≡ freq)
      × (c.drive_strength ≡ drive_strength)
unfolding choose
choose_whole freq drive_strength band s first e low high level =
    let above : ltb freq first.freq ≡ false = ground arith in
    let over : leb freq 1000000 ≡ false = ground arith in
    let c : Choice = record {
      freq = freq;
      ofreq = u32 (freq + s.if_offset);
      rdiv = r_div 0;
      drive_strength = drive_strength;
      band = band % 2 ^ 8;
    } in
    (c, rw (e, above, over, level) refl, refl, refl)

-- A call for 16 times the frequency, above 1 MHz and in a band of the table, sends nothing and changes
-- nothing either, when the frequency just set at the same drive strength is one that is divided by 16,
-- from the first limit of the table to 1 MHz.
pub si5351_set_frequency_16 :
    (delays : Delays) (freq drive_strength band : ℕ) (s : Synth) (first : Band) {delay : ℕ}
    {t : Synth}
    → get_elem? s.band_s 1 ≡ some first
    → first.freq ≤ freq
    → freq ≤ 1000000
    → 1000000 < 16 * freq
    → si5351_get_harmonic_lvl s.threshold (16 * freq) s.band_s ≡ some band
    → si5351_set_frequency delays freq drive_strength s ≡ some (delay, t)
    → si5351_set_frequency delays (16 * freq) drive_strength t ≡ some (delays.channel_change, t)
si5351_set_frequency_16 delays freq drive_strength band s first {t = t} e low high over level h =
    let (c, chosen, f16, d16) = choose_16 freq drive_strength s first e low high in
    let (c', chosen', whole, d) =
      choose_whole (16 * freq) drive_strength band s first e (omega arith) over level in
    let some_freq : freq ≢ 0 = λ z. absurd (omega arith) in
    let some_freq' : 16 * freq ≢ 0 = λ z. absurd (omega arith) in
    let (e1, e2, e3) =
      retune-remembers delays c s
        (sym (set_frequency-choice delays freq drive_strength s c some_freq chosen) ∙ h) in
    set_frequency-choice delays (16 * freq) drive_strength t c' some_freq'
      (choose_same (16 * freq) drive_strength s t e3 ∙ chosen')
    ∙ retune-remembered delays c' t (e1 ∙ f16 ∙ sym whole) (e2 ∙ d16 ∙ sym d)
