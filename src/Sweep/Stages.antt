-- ===== src/Sweep/Stages.antt =====
-- How far a sweep of both channels is within a point, and what it has stored by then.
use nano_vna_x.Base.{
  ℕ, zero, suc, ◌+◌, ◌%◌, ◌≤◌, ◌<◌, ◌≡◌, ◌⊎◌, inl, inr, refl, List, [], ◌∷◌, ◌++◌, ◌==◌, arith,
  Bool-cases,
}
use nano_vna_x.Sweep.State.{
  RfState, idle, setup_freq, setup_measure, wait_capture, process, next_step, fault,
}

abbrev pub point_plan : ℕ → List (ℕ × ℕ)
point_plan p = (0, p) ∷ (1, p) ∷ []

-- Both channels of each point below the bound, in order.
abbrev pub plan : ℕ → List (ℕ × ℕ)
plan zero = []
plan (suc n) = plan n ++ point_plan n

-- In cycle c of t, before channel ch, k values of the point are stored: none before the last cycle.
abbrev pub Stage : RfState → ℕ → ℕ → ℕ → ℕ → Type 0
Stage idle c t ch k = k ≡ 0
Stage setup_freq c t ch k = (k ≡ 0) × (ch ≡ 0)
Stage setup_measure c t ch k =
    ((c + 1 < t) × (k ≡ 0) × (ch ≤ 2))
    ⊎ ((c + 1 ≡ t) × (k ≡ ch) × (ch ≤ 2))
    ⊎ ((c ≡ t) × (k ≡ 2) × (ch ≡ 0))
Stage wait_capture c t ch k =
    ((c + 1 < t) × (k ≡ 0) × (ch ≤ 1)) ⊎ ((c + 1 ≡ t) × (k ≡ ch) × (ch ≤ 1))
Stage process c t ch k = ((c + 1 < t) × (k ≡ 0) × (ch ≤ 1)) ⊎ ((c + 1 ≡ t) × (k ≡ ch) × (ch ≤ 1))
Stage next_step c t ch k = (k ≡ 2) × (ch ≡ 0)
Stage fault c t ch k = k ≤ 1

pub first-Stage :
    (settling k ch : ℕ)
    → settling < 255
    → k ≡ 0
    → ch ≡ 0
    → Stage setup_measure 0 ((settling % 256 + 1) % 256) ch k
first-Stage settling k ch small none_yet first = elim (Bool-cases (settling == 0)) [
  | inl e ↦ inr (inl (ground arith, omega arith, omega arith))
  | inr e ↦ inl (ground arith, omega arith, omega arith)
]

pub over-Stage : (c t ch k : ℕ) → t ≤ c → Stage setup_measure c t ch k → Stage next_step c t ch k
over-Stage c t ch k over stage = ground arith

pub capture-Stage :
    (c t ch k ch' : ℕ)
    → c < t
    → ch' ≡ ch
    → ch' ≤ 1
    → Stage setup_measure c t ch k
    → Stage wait_capture c t ch' k
capture-Stage c t ch k ch' more same low (inl (a, b, d)) = inl (a, b, low)
capture-Stage c t ch k ch' more same low (inr (inl (a, b, d))) = inr (a, omega arith, low)
capture-Stage c t ch k ch' more same low (inr (inr (a, b, d))) = absurd (omega arith)

pub fault-Stage : (c t ch k : ℕ) → Stage wait_capture c t ch k → Stage fault c t ch k
fault-Stage c t ch k stage = ground arith

pub cycle-Stage :
    (c t ch k : ℕ)
    → c < t
    → 1 < ch
    → Stage setup_measure c t ch k
    → Stage setup_measure (c + 1) t 0 k
cycle-Stage c t ch k more high (inl (a, b, d)) = elim (Bool-cases (c + 2 == t)) [
  | inl e ↦ inr (inl (ground arith, b, omega arith))
  | inr e ↦ inl (ground arith, b, omega arith)
]
cycle-Stage c t ch k more high (inr (inl (a, b, d))) = inr (inr (a, omega arith, refl))
cycle-Stage c t ch k more high (inr (inr (a, b, d))) = absurd (omega arith)
