-- ===== src/Printf/Freq/Division.antt =====
-- The division by shifts is a division by 10.
use nano_vna_x.Base.{
  ℕ, ◌+◌, ◌-◌, ◌*◌, ◌/◌, ◌%◌, ◌^◌, ◌≤◌, zero, suc, ap₂, ◌∙◌, Bool-cases, inl, inr, ◌<◌, ◌≡◌, ap,
  u32, sub32, leb, arith,
}
use nano_vna_x.Printf.Freq.{shifted, correct, div_10}

-- The approximation falls short of a tenth by less than two.
shifted_bounds :
    (freq : ℕ) → freq < 2 ^ 32 → (shifted freq * 10 ≤ freq) × (freq < shifted freq * 10 + 30)
shifted_bounds freq fits = (omega arith, omega arith)

correct_lem :
    (fuel freq c : ℕ)
    → c < 10 * fuel
    → c < 2 ^ 32
    → freq + fuel < 2 ^ 32
    → correct fuel freq c ≡ (freq + c / 10, c % 10)
unfolding correct
correct_lem zero freq c few fits small = absurd (omega arith)
correct_lem (suc fuel) freq c few fits small = elim (Bool-cases (leb 10 c)) [
  | inl more ↦
      let next : u32 (freq + 1) ≡ freq + 1 = omega arith in
      let less : sub32 c 10 ≡ c - 10 = ground arith in
      let quotient : freq + 1 + (c - 10) / 10 ≡ freq + c / 10 = ground arith in
      let rest : (c - 10) % 10 ≡ c % 10 = ground arith in
      rw (more, next, less)
        (correct_lem fuel (freq + 1) (c - 10) (ground arith) (omega arith) (omega arith)
          ∙ ap₂ (λ q r. (q, r)) quotient rest)
  | inr done ↦
      let quotient : freq ≡ freq + c / 10 = ground arith in
      let rest : c ≡ c % 10 = ground arith in rw done (ap₂ (λ q r. (q, r)) quotient rest)
]

-- A quotient that falls short by less than three is corrected.
correct_short :
    (q freq : ℕ)
    → freq < 2 ^ 32
    → q * 10 ≤ freq
    → freq < q * 10 + 30
    → correct 3 q (sub32 freq (u32 (q * 10))) ≡ (freq / 10, freq % 10)
correct_short q freq fits short near =
    let c : sub32 freq (u32 (q * 10)) ≡ freq - q * 10 = omega arith in
    let quotient : q + (freq - q * 10) / 10 ≡ freq / 10 = omega arith in
    let rest : (freq - q * 10) % 10 ≡ freq % 10 = omega arith in
    ap (correct 3 q) c
    ∙ correct_lem 3 q (freq - q * 10) (omega arith) (omega arith) (omega arith)
    ∙ ap₂ (λ q r. (q, r)) quotient rest

-- For every number of 32 bits the shifts and the loop behind them give the quotient and the rest of
-- the division by 10.
pub div_10_lem : (freq : ℕ) → freq < 2 ^ 32 → div_10 freq ≡ (freq / 10, freq % 10)
unfolding div_10
div_10_lem freq fits =
    let (short, near) = shifted_bounds freq fits in
    correct_short (shifted freq) freq fits short near
