-- ===== src/Keypad/Overrun.antt =====
-- Where a click on k, M or G leaves the buffer.
use nano_vna_x.Base.{
  ℕ, zero, suc, ◌+◌, ◌^◌, ◌≤◌, ◌≡◌, ◌≢◌, refl, ap, ◌∙◌, true, false, none, some, List, [], ◌∷◌,
  ◌++◌, ltb, ◌==◌, ◌||◌, get_elem?, length, arith, Every, length-append,
}
use nano_vna_x.Keypad.{
  period_pos, shift_round, shift_loop, apply_scale, numinput_len, kp_k, kp_g, end_input,
  num_keypad_click,
}

-- A byte of a number that has no period.
abbrev pub IsPlain : ℕ → Type 0
IsPlain b = (b ≢ 0) × (b ≢ b'.')

pub period_pos-plain :
    (t rest : List ℕ) → Every IsPlain t → period_pos (t ++ 0 ∷ rest) ≡ some (length t)
unfolding period_pos
period_pos-plain [] rest h = refl
period_pos-plain (b ∷ t) rest h =
    let later = period_pos-plain t rest h.1 in
    let other : (b == 0 || b == b'.') ≡ false = ground (arith, h.0) in
    rw (other, later) (ap some (omega arith))

pub get_elem?-append :
    (t rest : List ℕ) (i n : ℕ) → length t ≡ n → get_elem? (t ++ rest) (n + i) ≡ get_elem? rest i
get_elem?-append [] rest i zero h = ap (get_elem? rest) (omega arith)
get_elem?-append [] rest i (suc n) h = absurd (omega arith)
get_elem?-append (b ∷ t) rest i zero h = absurd (omega arith)
get_elem?-append (b ∷ t) rest i (suc n) h =
    ap (get_elem? (b ∷ (t ++ rest))) (one_more n) ∙ get_elem?-append t rest i n (omega arith)
  where
    one_more : (n : ℕ) → suc n + i ≡ suc (n + i)
    one_more n = omega arith

shift_loop-none :
    (fuel scale i : ℕ) (buf : List ℕ)
    → shift_round i buf ≡ none
    → shift_loop fuel scale i buf ≡ none
unfolding shift_loop
shift_loop-none zero scale i buf e = refl
shift_loop-none (suc fuel) scale i buf e = rw (shift_loop, e) refl

full_round : (t : List ℕ) (x n : ℕ) → length t ≡ n → shift_round n (t ++ 0 ∷ x ∷ []) ≡ none
unfolding shift_round
full_round t x n h =
    let at : get_elem? (t ++ 0 ∷ x ∷ []) n ≡ some 0 =
      ap (get_elem? (t ++ 0 ∷ x ∷ [])) (omega arith) ∙ get_elem?-append t (0 ∷ x ∷ []) 0 n h in
    let behind : get_elem? (t ++ 0 ∷ x ∷ []) (n + 1) ≡ some x =
      get_elem?-append t (0 ∷ x ∷ []) 1 n h in
    let test : (x == 0 || true) ≡ true = ground arith in
    let outside : ltb (n + 2) (length (t ++ 0 ∷ x ∷ [])) ≡ false =
      ground (arith, h, length-append t (0 ∷ x ∷ [])) in
    rw (behind, at, test, outside) refl

-- Twelve bytes fill the input.
apply_scale-overrun :
    (c x : ℕ) (t : List ℕ)
    → kp_k ≤ c
    → c ≤ kp_g
    → Every IsPlain t
    → length t ≡ numinput_len
    → apply_scale c (t ++ 0 ∷ x ∷ []) ≡ none
unfolding apply_scale
apply_scale-overrun c x t low high plain full =
    rw (period_pos-plain t (x ∷ []) plain)
      (shift_loop-none (2 ^ 16) _ (length t) (t ++ 0 ∷ x ∷ []) (full_round t x (length t) refl))

-- A number of twelve bytes without a period fills the input: a click on k, M or G then leaves the
-- buffer, which has 14 bytes.
pub num_keypad_click-overrun :
    (maxlength c x : ℕ) (t : List ℕ)
    → kp_k ≤ c
    → c ≤ kp_g
    → Every IsPlain t
    → length t ≡ numinput_len
    → num_keypad_click maxlength c (length t) (t ++ 0 ∷ x ∷ []) ≡ none
unfolding num_keypad_click end_input
num_keypad_click-overrun maxlength c x t low high plain full =
    ground (arith, apply_scale-overrun c x t low high plain full)
