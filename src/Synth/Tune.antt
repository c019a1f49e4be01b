-- ===== src/Synth/Tune.antt =====
-- src/driver/si5351.c: si5351_set_frequency, and the functions that use it or undo what it remembers.
use nano_vna_x.Base.{
  ℕ, ◌+◌, ◌*◌, ◌%◌, ◌^◌, Bool, not, ◌||◌, Option, some, [], ◌∷◌, ltb, leb, ◌==◌, if◌then◌else◌,
  get_elem?, u32,
}
use nano_vna_x.Base.Options.{◌>>=◌}
use nano_vna_x.Synth.Bands.{
  Band, fixed_pll, fixed_mult, si5351_get_harmonic_lvl, band_strategy_h4_si5351,
  band_strategy_33h_si5351, band_strategy_36h_ms5351, band_strategy_swc5351,
}
use nano_vna_x.Synth.Driver.{
  wait_pll_lock, sleep, set_gain, bulk_write, Synth, act, pll_a, pll_b, ofreq_channel, freq_channel,
  audio_codec_channel, select_b, r_div, si5351_reset_cache, si5351_write, si5351_reset_pll,
  si5351_setup_pll, si5351_setup_multisynth, si5351_set_frequency_fixedpll, si5351_setup_pll_freq,
}

-- The delays of the build, in system ticks.
pub record Delays : Type 0 where
  pub band_1_2 : ℕ
  pub band_3_4 : ℕ
  pub bandchange : ℕ
  pub channel_change : ℕ

-- What the first part of si5351_set_frequency chooses.
pub record Choice : Type 0 where
  pub freq : ℕ
  pub ofreq : ℕ
  pub rdiv : ℕ
  pub drive_strength : ℕ
  pub band : ℕ

-- The lowest frequencies are made 128 or 16 times as high, and divided at the output.
unfoldable pub choose : ℕ → ℕ → Synth → Option Choice
choose freq drive_strength s =
    let ofreq = u32 (freq + s.if_offset) in
    get_elem? s.band_s 1 >>= λ first.
    if ltb freq first.freq
    then some (record {
      freq = u32 (freq * 2 ^ 7);
      ofreq = u32 (ofreq * 2 ^ 7);
      rdiv = r_div 7;
      drive_strength = 0;
      band = 1;
    })
    else if leb freq 1000000
    then some (record {
      freq = u32 (freq * 2 ^ 4);
      ofreq = u32 (ofreq * 2 ^ 4);
      rdiv = r_div 4;
      drive_strength = drive_strength;
      band = 2;
    })
    else (si5351_get_harmonic_lvl s.threshold freq s.band_s >>= λ band. some (record {
      freq = freq;
      ofreq = ofreq;
      rdiv = r_div 0;
      drive_strength = drive_strength;
      band = band % 2 ^ 8;
    }))

-- Another drive strength makes the driver forget what it has set.
unfoldable pub check_power : ℕ → Synth → Synth
unfolding si5351_reset_cache
check_power drive_strength s =
    if s.current_power == drive_strength
    then s
    else record (si5351_reset_cache s) { current_power = drive_strength }

abbrev pub check_gain : Band → Band → Synth → Synth
check_gain old b s =
    if not (old.l_gain == b.l_gain) || not (old.r_gain == b.r_gain)
    then act (set_gain b.l_gain b.r_gain) s
    else s

-- The drive of the two outputs: the band's, for the automatic strength.
abbrev pub drives : Band → ℕ → ℕ × ℕ
drives b drive_strength =
    if ltb 3 drive_strength then (b.pow, b.opow) else (drive_strength, drive_strength)

-- The PLLs and the codec's clock, in a new band of a fixed PLL.
unfoldable pub setup_fixed_pll : Bool → Band → Synth → Option Synth
unfolding si5351_setup_pll si5351_set_frequency_fixedpll
setup_fixed_pll changed b s =
    if changed
    then si5351_set_frequency_fixedpll audio_codec_channel (u32 (s.xtal_freq * 32)) 8000000
        (r_div 0) select_b
        (act wait_pll_lock (si5351_setup_pll pll_b 32 0 1 (si5351_setup_pll pll_a b.div 0 1 s)))
    else some s

-- The case SI5351_FIXED_PLL.
unfoldable pub tune_fixed_pll : Bool → Band → Choice → Synth → Option Synth
unfolding setup_fixed_pll si5351_set_frequency_fixedpll
tune_fixed_pll changed b c s =
    let (ds, ods) = drives b c.drive_strength in
    setup_fixed_pll changed b s >>= λ s.
    si5351_set_frequency_fixedpll ofreq_channel (b.omul * s.xtal_freq * b.div) c.ofreq c.rdiv ods s
    >>= λ s.
        si5351_set_frequency_fixedpll freq_channel (b.mul * s.xtal_freq * b.div) c.freq c.rdiv ds s

-- The dividers of the two outputs are set only if they differ from the old band's.
unfoldable pub setup_fixed_mult : Band → Band → Choice → Synth → Synth
unfolding si5351_setup_multisynth
setup_fixed_mult old b c s =
    let (ds, ods) = drives b c.drive_strength in
    if old.div == b.div
    then s
    else si5351_setup_multisynth freq_channel b.div 0 1 (r_div 0) (ds + select_b)
        (si5351_setup_multisynth ofreq_channel b.div 0 1 (r_div 0) ods s)

-- The case SI5351_FIXED_MULT.
unfoldable pub tune_fixed_mult : Band → Band → Choice → Synth → Option Synth
unfolding setup_fixed_mult si5351_setup_pll_freq si5351_set_frequency_fixedpll
tune_fixed_mult old b c s = si5351_setup_pll_freq pll_a (c.ofreq * b.div) b.omul s >>= λ s.
    si5351_setup_pll_freq pll_b (c.freq * b.div) b.mul s >>= λ s.
    si5351_set_frequency_fixedpll audio_codec_channel (c.freq * b.div) (8000000 * b.mul) (r_div 0)
      select_b (setup_fixed_mult old b c s)

-- The end of a change of band.
unfoldable pub end_change : Delays → Bool → ℕ → Choice → Synth → ℕ × Synth
unfolding si5351_reset_pll
end_change delays changed delay c s =
    if changed
    then (
      delays.bandchange,
      record (si5351_reset_pll (32 + 128) (act (sleep 4000) s)) {
        pending_settling_cycles = 1;
        current_band = c.band;
        current_freq = c.freq;
      },
    )
    else (delay, record s { current_freq = c.freq })

-- From the two bands on: gains, PLLs and dividers, and what is remembered.
unfoldable pub tune : Delays → Band → Band → Choice → Synth → Option (ℕ × Synth)
unfolding tune_fixed_pll tune_fixed_mult end_change
tune delays old b c s =
    let changed = not (s.current_band == c.band) in
    let s = if changed then check_gain old b s else s in
    if b.mode == fixed_pll
    then (tune_fixed_pll changed b c s >>= λ s.
        some (end_change delays changed delays.band_1_2 c s))
    else if b.mode == fixed_mult
    then (tune_fixed_mult old b c s >>= λ s. some (end_change delays changed delays.band_3_4 c s))
    else some (end_change delays changed 0 c s)

-- After the choice.
unfoldable pub retune : Delays → Choice → Synth → Option (ℕ × Synth)
unfolding check_power tune
retune delays c s =
    let s' = check_power c.drive_strength s in
    if c.freq == s'.current_freq
    then some (delays.channel_change, s')
    else (get_elem? s'.band_s s'.current_band >>= λ old.
        get_elem? s'.band_s c.band >>= λ b. tune delays old b c s')

-- The delay that it returns, and the state after it. `none` is a read behind the table of the bands.
unfoldable pub si5351_set_frequency : Delays → ℕ → ℕ → Synth → Option (ℕ × Synth)
unfolding choose retune
si5351_set_frequency delays freq drive_strength s =
    if freq == 0 then some (0, s) else (choose freq drive_strength s >>= λ c. retune delays c s)

unfoldable pub si5351_set_power : Delays → ℕ → Synth → Option Synth
unfolding si5351_set_frequency
si5351_set_power delays drive_strength s =
    if drive_strength == s.current_power
    then some s
    else (si5351_set_frequency delays s.current_freq drive_strength s >>= λ r. some r.1)

unfoldable pub si5351_take_settling_cycles : Synth → ℕ × Synth
si5351_take_settling_cycles s =
    (s.pending_settling_cycles, record s { pending_settling_cycles = 0 })

unfoldable pub si5351_set_tcxo : ℕ → Synth → Synth
unfolding si5351_reset_cache
si5351_set_tcxo xtal s =
    si5351_reset_cache
      (record s { xtal_freq = if ltb xtal 24000000 || ltb 28000000 xtal then 26000000 else xtal })

-- `h` tells the H board from the H4 board.
unfoldable pub si5351_set_band_mode : Bool → ℕ → Synth → Option Synth
unfolding band_strategy_h4_si5351 band_strategy_33h_si5351 band_strategy_36h_ms5351
    band_strategy_swc5351
si5351_set_band_mode h t s =
    get_elem?
      ((if h then band_strategy_33h_si5351 else band_strategy_h4_si5351)
        ∷ band_strategy_36h_ms5351
        ∷ band_strategy_swc5351
        ∷ [])
      t
    >>= λ bands. some (record s { band_s = bands })

unfoldable pub si5351_disable_output : Synth → Synth
unfolding si5351_reset_cache si5351_write
si5351_disable_output s =
    si5351_reset_cache (act (bulk_write (16 ∷ 128 ∷ 128 ∷ 128 ∷ [])) (si5351_write 3 7 s))

unfoldable pub si5351_enable_output : Synth → Synth
unfolding si5351_reset_cache si5351_write
si5351_enable_output s = si5351_reset_cache (si5351_write 3 248 s)
