-- ===== src/Synth/Divided.antt =====
-- The divider that si5351_set_frequency_fixedpll sends.
use nano_vna_x.Base.{
  ℕ, suc, ◌+◌, ◌*◌, ◌/◌, ◌%◌, ◌^◌, ◌≤◌, ◌<◌, ◌≡◌, ◌≢◌, refl, ap, subst, ◌∙◌, leb, true, false, some,
  List, ◌∷◌, ◌==◌, if◌then◌else◌, u32, arith, Bool-cases, inl, inr,
}
use nano_vna_x.Base.Options.{◌>>=◌}
use nano_vna_x.Synth.Driver.{
  Action, Synth, act, bulk_write, msreg_base, write_control, control, si5351_setup_multisynth,
  si5351_set_frequency_fixedpll,
}
use nano_vna_x.Synth.Fraction.{max_denominator}
use nano_vna_x.Synth.Fraction.Track.{IsClose, mod_lt}
use nano_vna_x.Synth.Fraction.Close.{approximate_fraction-ReturnsClose}
use nano_vna_x.Synth.Registers.{Params, divby4, multisynth_bytes, register_bytes}
use nano_vna_x.Synth.Registers.Decode.{read_setting, Meets, IsRatio, read_setting-multisynth_bytes}
use nano_vna_x.Synth.Sent.{block}

-- The control byte does not touch the dividers.
block-write_control :
    (base channel chctrl : ℕ) (s : Synth)
    → 19 ≤ base
    → channel < 3
    → block base (write_control channel chctrl s).actions ≡ block base s.actions
unfolding block
block-write_control base channel chctrl s far few =
    elim (Bool-cases (s.clk_cache channel == chctrl)) [
      | inl same ↦ rw same refl
      | inr new ↦ let other : (16 + channel == base) ≡ false = ground arith in rw (new, other) refl
    ]

block_same :
    (base base' div num denom rdiv : ℕ) (actions : List Action)
    → (base' == base) ≡ true
    → block base (bulk_write (multisynth_bytes base' div num denom rdiv) ∷ actions)
      ≡ some (multisynth_bytes base' div num denom rdiv)
unfolding block multisynth_bytes register_bytes
block_same base base' div num denom rdiv actions e = elim (Bool-cases (div == 4)) [
  | inl four ↦ rw (four, e) refl
  | inr more ↦ rw (more, e) refl
]

block_other :
    (base base' div num denom rdiv : ℕ) (actions : List Action)
    → (base' == base) ≡ false
    → block base (bulk_write (multisynth_bytes base' div num denom rdiv) ∷ actions)
      ≡ block base actions
unfolding block multisynth_bytes register_bytes
block_other base base' div num denom rdiv actions e = elim (Bool-cases (div == 4)) [
  | inl four ↦ rw (four, e) refl
  | inr more ↦ rw (more, e) refl
]

block-setup_multisynth :
    (channel div num denom rdiv chctrl : ℕ) (s : Synth)
    → channel < 3
    → block
        (msreg_base channel)
        (si5351_setup_multisynth channel div num denom rdiv chctrl s).actions
      ≡ some (multisynth_bytes (msreg_base channel) div num denom rdiv)
unfolding si5351_setup_multisynth
block-setup_multisynth channel div num denom rdiv chctrl s few =
    block-write_control (msreg_base channel) channel (control div num chctrl)
      (act (bulk_write (multisynth_bytes (msreg_base channel) div num denom rdiv)) s) (omega arith)
      few
    ∙ block_same (msreg_base channel) (msreg_base channel) div num denom rdiv s.actions
        (ground arith)

-- A divider is not touched by what sets up another one.
pub block-setup_multisynth_other :
    (channel channel' div num denom rdiv chctrl : ℕ) (s : Synth)
    → channel' < 3
    → channel' ≢ channel
    → block
        (msreg_base channel)
        (si5351_setup_multisynth channel' div num denom rdiv chctrl s).actions
      ≡ block (msreg_base channel) s.actions
unfolding si5351_setup_multisynth
block-setup_multisynth_other channel channel' div num denom rdiv chctrl s few other =
    block-write_control (msreg_base channel) channel' (control div num chctrl)
      (act (bulk_write (multisynth_bytes (msreg_base channel') div num denom rdiv)) s) (omega arith)
      few
    ∙ block_other (msreg_base channel) (msreg_base channel') div num denom rdiv s.actions
        (ground (arith, other))

lt_close : (n d p q : ℕ) → n < d → suc q ≤ p → n * q + d ≤ d * p
lt_close n d p q h k = grind arith

close_le : (n d p q : ℕ) → n < d → IsClose n d p q → p ≤ q
close_le n d p q h (e, h1, h2, small) = elim (Bool-cases (leb p q)) [
  | inl le ↦ ground arith
  | inr more ↦ absurd (omega (arith, lt_close n d p q h (ground arith)))
]

-- A divider that is not a division by 4.
read_divided :
    (base div num denom rdiv : ℕ)
    → (div == 4) ≡ false
    → IsRatio div num denom
    → rdiv % 2 ^ 4 ≡ 0
    → (p : Params) × (read_setting (multisynth_bytes base div num denom rdiv)
        ≡ some (record { base = base; upper = rdiv; params = p }))
      × Meets div num denom p
read_divided base div num denom rdiv more r aligned =
    subst
      (λ four.
        (p : Params) × (read_setting (multisynth_bytes base div num denom rdiv)
          ≡ some (record { base = base; upper = if four then rdiv + divby4 else rdiv; params = p }))
        × (if four then (p.p1 ≡ 0) × (p.p2 ≡ 0) × (p.p3 ≡ 1) else Meets div num denom p))
      more (read_setting-multisynth_bytes base div num denom rdiv r aligned)

-- The chip reads from the last transfer to the divider of a channel a ratio that is as close to
-- pllfreq / freq as the fraction, above an output divider `rdiv`.
abbrev pub Divides : ℕ → ℕ → ℕ → ℕ → List Action → Type 0
Divides channel pllfreq freq rdiv actions =
    (num : ℕ) × (denom : ℕ) × (params : Params) × ((block (msreg_base channel) actions
        >>= read_setting)
      ≡ some (record { base = msreg_base channel; upper = rdiv; params = params }))
    × Meets (pllfreq / freq) num denom params
    × (0 < denom)
    × (denom ≤ max_denominator)
    × IsClose (pllfreq % freq) freq num denom

-- What the divider and the PLL must be for that.
abbrev pub IsDivisible : ℕ → ℕ → Type 0
IsDivisible pllfreq freq =
    (0 < freq) × (freq < 2 ^ 32) × (5 ≤ pllfreq / freq) × (pllfreq / freq ≤ 2050)

-- Another state with the same last transfer.
pub Divides-same :
    (channel pllfreq freq rdiv : ℕ) (actions actions' : List Action)
    → block (msreg_base channel) actions' ≡ block (msreg_base channel) actions
    → Divides channel pllfreq freq rdiv actions
    → Divides channel pllfreq freq rdiv actions'
Divides-same channel pllfreq freq rdiv actions actions' e
      (num, denom, params, read, meets, some_q, small_q, close) =
    (num, denom, params, ap (λ o. o >>= read_setting) e ∙ read, meets, some_q, small_q, close)

pub si5351_set_frequency_fixedpll-Divides :
    (channel pllfreq freq rdiv chctrl : ℕ) (s : Synth)
    → channel < 3
    → IsDivisible pllfreq freq
    → rdiv % 2 ^ 4 ≡ 0
    → (t : Synth) × (si5351_set_frequency_fixedpll channel pllfreq freq rdiv chctrl s ≡ some t)
      × Divides channel pllfreq freq rdiv t.actions
unfolding si5351_set_frequency_fixedpll
si5351_set_frequency_fixedpll-Divides channel pllfreq freq rdiv chctrl s few fits aligned =
    let falls : pllfreq % freq < freq = mod_lt pllfreq freq (omega (arith, fits)) in
    let (num, denom, found, some_q, small_q, close) =
      approximate_fraction-ReturnsClose (pllfreq % freq) freq (omega (arith, fits))
        (omega (arith, fits)) (omega (arith, fits)) in
    let div : u32 (pllfreq / freq) ≡ pllfreq / freq = omega (arith, fits) in
    let (params, read, meets) =
      read_divided (msreg_base channel) (pllfreq / freq) num denom rdiv (ground (arith, fits))
        (
          omega (arith, fits),
          omega (arith, fits),
          close_le (pllfreq % freq) freq num denom falls close,
          some_q,
          omega arith,
        )
        aligned in
    let sent = block-setup_multisynth channel (pllfreq / freq) num denom rdiv chctrl s few in
    (
      si5351_setup_multisynth channel (pllfreq / freq) num denom rdiv chctrl s,
      rw (found, div) refl,
      (num, denom, params, rw sent read, meets, some_q, small_q, close),
    )
