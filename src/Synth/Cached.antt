-- ===== src/Synth/Cached.antt =====
-- The cache of the control registers.
use nano_vna_x.Base.{
  ℕ, suc, ◌+◌, ◌-◌, ◌<◌, ◌≡◌, ◌≢◌, refl, sym, subst, ◌∙◌, Bool, true, false, Option, none, some,
  List, [], ◌∷◌, ◌==◌, leb, if◌then◌else◌, get_elem?, arith, Bool-cases, inl, inr,
}
use nano_vna_x.Base.Options.{◌>>=◌, >>=-eq-some}
use nano_vna_x.Synth.Does.{Does, IsPlain, done, acts, controls}
use nano_vna_x.Synth.Driver.{
  Action, bulk_write, wait_pll_lock, sleep, set_gain, Synth, write_control, si5351_reset_cache,
}
use nano_vna_x.Synth.Remember.{retune-Tunes}
use nano_vna_x.Synth.Tune.{Delays, Choice, check_power, choose, retune, si5351_set_frequency}

-- The control register of the channel, as the last transfer that reaches it leaves it: the chip takes
-- the bytes of a transfer for registers that follow one another.
unfoldable pub control_byte : ℕ → List Action → Option ℕ
control_byte channel [] = none
control_byte channel (bulk_write [] ∷ actions) = control_byte channel actions
control_byte channel (bulk_write (reg ∷ bytes) ∷ actions) =
    let earlier = control_byte channel actions in
    if leb reg (16 + channel)
    then elim (get_elem? bytes (16 + channel - reg)) [ none ↦ earlier | some b ↦ some b ]
    else earlier
control_byte channel (wait_pll_lock ∷ actions) = control_byte channel actions
control_byte channel (sleep us ∷ actions) = control_byte channel actions
control_byte channel (set_gain l r ∷ actions) = control_byte channel actions

-- What the cache holds, other than 0, is in the chip's register.
abbrev pub IsCached : (ℕ → ℕ) → List Action → Type 0
IsCached clk_cache actions =
    (channel : ℕ)
    → channel < 3
    → clk_cache channel ≢ 0
    → control_byte channel actions ≡ some (clk_cache channel)

control_byte-plain :
    (channel : ℕ) (a : Action) (actions : List Action)
    → channel < 3
    → IsPlain a
    → control_byte channel (a ∷ actions) ≡ control_byte channel actions
unfolding control_byte
control_byte-plain channel (bulk_write []) actions few plain = refl
control_byte-plain channel (bulk_write (reg ∷ bytes)) actions few plain =
    let far : leb reg (16 + channel) ≡ false = ground (arith, plain) in rw far refl
control_byte-plain channel wait_pll_lock actions few plain = refl
control_byte-plain channel (sleep us) actions few plain = refl
control_byte-plain channel (set_gain l r) actions few plain = refl

-- A control byte that is sent is in its own register, and in no other.
control_byte-sent :
    (channel c chctrl : ℕ) (actions : List Action)
    → control_byte c (bulk_write ((16 + channel) ∷ chctrl ∷ []) ∷ actions)
      ≡ (if c == channel then some chctrl else control_byte c actions)
unfolding control_byte
control_byte-sent channel c chctrl actions = elim (Bool-cases (c == channel)) [
  | inl same ↦
      let reaches : leb (16 + channel) (16 + c) ≡ true = ground arith in
      let first : 16 + c - (16 + channel) ≡ 0 = ground arith in rw (same, reaches, first) refl
  | inr other ↦ rw other (elim (Bool-cases (leb (16 + channel) (16 + c))) [
    | inl reaches ↦
        let behind : 16 + c - (16 + channel) ≡ suc (c - channel - 1) = ground arith in
        rw (reaches, behind) refl
    | inr far ↦ rw far refl
  ])
]

sent_or_cached :
    (same : Bool) (chctrl old : ℕ) (earlier : Option ℕ)
    → (if same then chctrl else old) ≢ 0
    → (old ≢ 0 → earlier ≡ some old)
    → (if same then some chctrl else earlier) ≡ some (if same then chctrl else old)
sent_or_cached true chctrl old earlier some_byte cached = refl
sent_or_cached false chctrl old earlier some_byte cached = cached some_byte

write_control-IsCached :
    (channel chctrl : ℕ) (s : Synth)
    → IsCached s.clk_cache s.actions
    → IsCached (write_control channel chctrl s).clk_cache (write_control channel chctrl s).actions
write_control-IsCached channel chctrl s cached = elim (Bool-cases (s.clk_cache channel == chctrl)) [
  | inl same ↦ rw same cached
  | inr new ↦ rw new (λ c few some_byte.
      control_byte-sent channel c chctrl s.actions
      ∙ sent_or_cached (c == channel) chctrl (s.clk_cache c) (control_byte c s.actions) some_byte
          (cached c few))
]

Does-IsCached :
    {s t : Synth} → Does s t → IsCached s.clk_cache s.actions → IsCached t.clk_cache t.actions
Does-IsCached done cached = cached
Does-IsCached (acts {t = t} a plain d) cached = λ c few some_byte.
    control_byte-plain c a t.actions few plain ∙ Does-IsCached d cached c few some_byte
Does-IsCached (controls {t = t} channel chctrl few d) cached =
    write_control-IsCached channel chctrl t (Does-IsCached d cached)

check_power-IsCached :
    (drive_strength : ℕ) (s : Synth)
    → IsCached s.clk_cache s.actions
    → IsCached (check_power drive_strength s).clk_cache (check_power drive_strength s).actions
unfolding check_power si5351_reset_cache
check_power-IsCached drive_strength s cached =
    elim (Bool-cases (s.current_power == drive_strength)) [
      | inl same ↦ rw same cached
      | inr new ↦ rw new cached
    ]

result_eq : {r r' : ℕ × Synth} → some r ≡ some r' → r.1 ≡ r'.1
result_eq e = cc

-- Every call keeps the cache true to the control registers of the chip.
pub si5351_set_frequency-IsCached :
    (delays : Delays) (freq drive_strength : ℕ) (s : Synth) {delay : ℕ} {t : Synth}
    → si5351_set_frequency delays freq drive_strength s ≡ some (delay, t)
    → IsCached s.clk_cache s.actions
    → IsCached t.clk_cache t.actions
unfolding si5351_set_frequency
si5351_set_frequency-IsCached delays freq drive_strength s {delay = delay} {t = t} h cached =
    go (freq == 0) h
  where
    retuned : (c : Choice) → retune delays c s ≡ some (delay, t) → IsCached t.clk_cache t.actions
    retuned c k = elim (retune-Tunes delays c s k) [
      | inl (e, same) ↦
          subst (λ t. IsCached t.clk_cache t.actions) (sym same)
            (check_power-IsCached c.drive_strength s cached)
      | inr (u, cycles, d, same) ↦
          subst (λ t. IsCached t.clk_cache t.actions) (sym same)
            (Does-IsCached d (check_power-IsCached c.drive_strength s cached))
    ]

    go :
        (b : Bool)
        → (if b then some (0, s) else (choose freq drive_strength s >>= λ c. retune delays c s))
          ≡ some (delay, t)
        → IsCached t.clk_cache t.actions
    go true k = subst (λ t. IsCached t.clk_cache t.actions) (result_eq k) cached
    go false k =
        let (c, chosen, tuned) =
          >>=-eq-some (choose freq drive_strength s) (λ c. retune delays c s) k in
        retuned c tuned
