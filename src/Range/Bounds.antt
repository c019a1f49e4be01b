-- ===== src/Range/Bounds.antt =====
-- The range stays between the limits of the device, and in order.
use nano_vna_x.Base.{
  ℕ, ◌+◌, ◌-◌, ◌*◌, ◌^◌, ◌≤◌, ◌<◌, ◌≡◌, true, false, if◌then◌else◌, u32, arith, Bool-cases, inl,
  inr,
}
use nano_vna_x.Range.{
  Range, FreqType, start, stop, center, cw, span, step, var, frequency_min, frequency_max,
  set_sweep_frequency,
}

pub record IsInRange (r : Range) : Type 0 where
  pub low : frequency_min ≤ r.frequency0
  pub ordered : r.frequency0 ≤ r.frequency1
  pub high : r.frequency1 ≤ frequency_max

-- What is asked for fits: a span between the limits, and a step whose multiple does not wrap.
abbrev pub Fits : FreqType → ℕ → Range → Type 0
Fits start freq r = Unit
Fits stop freq r = Unit
Fits center freq r = Unit
Fits cw freq r = Unit
Fits span freq r = freq ≤ frequency_max - frequency_min
Fits step freq r =
    freq * (r.sweep_points - 1)
    ≤ (if r.center_span then frequency_max - frequency_min else 2 ^ 32 - 1 - r.frequency0)
Fits var freq r = Unit

-- The range stays between the limits of the device and in order, whatever is set, except a span wider
-- than the limits or a step whose multiple leaves them or 32 bits.
pub set_sweep_frequency-IsInRange :
    (type : FreqType) (freq : ℕ) (r : Range)
    → IsInRange r
    → Fits type freq r
    → IsInRange (set_sweep_frequency type freq r)
unfolding set_sweep_frequency
set_sweep_frequency-IsInRange start freq r h fits = ground arith
set_sweep_frequency-IsInRange stop freq r h fits = ground arith
set_sweep_frequency-IsInRange center freq r h fits = ground arith
set_sweep_frequency-IsInRange cw freq r h fits = ground arith
set_sweep_frequency-IsInRange span freq r h fits = ground arith
set_sweep_frequency-IsInRange step freq r h fits = elim (Bool-cases r.center_span) [
  | inl spans ↦ step_span spans
  | inr stops ↦ step_stop stops
]
  where
    step_span : r.center_span ≡ true → IsInRange (set_sweep_frequency step freq r)
    step_span spans =
        let no_wrap : u32 (freq * (r.sweep_points - 1)) ≡ freq * (r.sweep_points - 1) =
          ground arith in
        rw (spans, no_wrap) (ground arith)

    step_stop : r.center_span ≡ false → IsInRange (set_sweep_frequency step freq r)
    step_stop stops =
        let whole : u32 (freq * (r.sweep_points - 1)) ≡ freq * (r.sweep_points - 1) =
          ground arith in
        let no_wrap : u32 (freq * (r.sweep_points - 1) + r.frequency0)
            ≡ freq * (r.sweep_points - 1) + r.frequency0 =
          ground arith in
        rw (stops, whole, no_wrap) (ground arith)
set_sweep_frequency-IsInRange var freq r h fits = ground arith

-- A span that is too wide for the limits puts the start below the lower limit.
pub set_sweep_frequency_wide :
    (freq : ℕ) (r : Range)
    → IsInRange r
    → frequency_max - frequency_min + 1 < freq
    → (set_sweep_frequency span freq r).frequency0 < frequency_min
unfolding set_sweep_frequency
set_sweep_frequency_wide freq r h wide = ground arith
