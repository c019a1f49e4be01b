-- ===== src/Keypad/Digits.antt =====
-- What a number that is typed in becomes.
use nano_vna_x.Base.{
  ℕ, zero, suc, ◌+◌, ◌-◌, ◌*◌, ◌%◌, ◌^◌, ◌≤◌, ◌<◌, ◌≡◌, refl, ap, sym, ◌∙◌, true, false, some, List,
  [], ◌∷◌, ◌++◌, ltb, leb, ◌==◌, ◌&&◌, ◌||◌, if◌then◌else◌, get_elem?, set, length, arith, Every,
  length-append, append_assoc, replicate,
}
use nano_vna_x.Keypad.{
  shift_round, shift_loop, apply_scale, read, write, numinput_len, kp_k, kp_g, kp_percent, k_done,
  end_input, num_keypad_click,
}
use nano_vna_x.Keypad.Overrun.{IsPlain, period_pos-plain, get_elem?-append}

set-append :
    (t rest : List ℕ) (i n v : ℕ) → length t ≡ n → set (t ++ rest) (n + i) v ≡ t ++ set rest i v
set-append [] rest i zero v h = ap (λ k. set rest k v) (omega arith)
set-append [] rest i (suc n) v h = absurd (omega arith)
set-append (b ∷ t) rest i zero v h = absurd (omega arith)
set-append (b ∷ t) rest i (suc n) v h =
    ap (λ k. set (b ∷ (t ++ rest)) k v) (one_more n)
    ∙ ap (λ l. b ∷ l) (set-append t rest i n v (omega arith))
  where
    one_more : (n : ℕ) → suc n + i ≡ suc (n + i)
    one_more n = omega arith

read-append : (t rest : List ℕ) (n : ℕ) → length t ≡ n → read (t ++ rest) n ≡ read rest 0
read-append t rest n h = ap (get_elem? (t ++ rest)) (omega arith) ∙ get_elem?-append t rest 0 n h

-- A write behind the text `t`.
write-append :
    (t rest : List ℕ) (i n v : ℕ)
    → length t ≡ n
    → i < length rest
    → write (t ++ rest) (n + i) v ≡ some (t ++ set rest i v)
write-append t rest i n v h small =
    let inside : ltb (n + i) (length (t ++ rest)) ≡ true =
      ground (arith, h, small, length-append t rest) in
    rw inside (ap some (set-append t rest i n v h))

write-append_first :
    (t rest : List ℕ) (b n v : ℕ) → length t ≡ n → write (t ++ b ∷ rest) n v ≡ some (t ++ v ∷ rest)
write-append_first t rest b n v h =
    ap (λ k. write (t ++ b ∷ rest) k v) (omega arith)
    ∙ write-append t (b ∷ rest) 0 n v h (omega arith)

-- A round at the NUL of a text puts a zero there and the NUL behind it.
shift_round-text :
    (t rest : List ℕ) (x y n : ℕ)
    → length t ≡ n
    → shift_round n (t ++ 0 ∷ x ∷ y ∷ rest) ≡ some (t ++ b'0' ∷ 0 ∷ 0 ∷ rest)
unfolding shift_round
shift_round-text t rest x y n h =
    let test : (x == 0 || true) ≡ true = ground arith in
    rw
      (
        get_elem?-append t (0 ∷ x ∷ y ∷ rest) 1 n h,
        read-append t (0 ∷ x ∷ y ∷ rest) n h,
        test,
        write-append t (0 ∷ x ∷ y ∷ rest) 2 n 0 h (omega arith),
        read-append t (0 ∷ x ∷ 0 ∷ rest) n h,
        write-append t (0 ∷ x ∷ 0 ∷ rest) 1 n 0 h (omega arith),
        write-append_first t (0 ∷ 0 ∷ rest) 0 n b'0' h,
      )
      refl

module _ (t rest : List ℕ) (x y n fuel : ℕ) (at : length t ≡ n) where
  last_round : shift_loop (suc fuel) 1 n (t ++ 0 ∷ x ∷ y ∷ rest) ≡ some (t ++ b'0' ∷ 0 ∷ 0 ∷ rest)
  unfolding shift_loop
  last_round = rw (shift_loop, shift_round-text t rest x y n at) refl

  next_round :
      (k : ℕ)
      → k + 2 < 2 ^ 16
      → shift_loop (suc fuel) (suc (suc k)) n (t ++ 0 ∷ x ∷ y ∷ rest)
        ≡ shift_loop fuel (suc k) (n + 1) (t ++ b'0' ∷ 0 ∷ 0 ∷ rest)
  unfolding shift_loop
  next_round k small =
      let left : (suc (suc k) + 2 ^ 16 - 1) % 2 ^ 16 ≡ suc k = omega arith in
      let more : ((suc (suc k) + 2 ^ 16 - 1) % 2 ^ 16 == 0) ≡ false = ground arith in
      rw (shift_loop, shift_round-text t rest x y n at, more, left) refl

-- As many zeros as rounds, where the buffer has room for them and two bytes more.
shift_loop-text :
    (k fuel n : ℕ) (t rest : List ℕ)
    → length t ≡ n
    → k < fuel
    → k + 1 < 2 ^ 16
    → k + 2 ≤ length rest
    → (rest' : List ℕ) × (shift_loop fuel (suc k) n (t ++ 0 ∷ rest)
        ≡ some (t ++ (replicate (suc k) b'0' ++ 0 ∷ rest')))
shift_loop-text k zero n t rest h enough small room = absurd (omega arith)
shift_loop-text k (suc fuel) n t [] h enough small room = absurd (omega arith)
shift_loop-text k (suc fuel) n t (x ∷ []) h enough small room = absurd (omega arith)
shift_loop-text zero (suc fuel) n t (x ∷ y ∷ rest) h enough small room =
    (0 ∷ rest, last_round t rest x y n fuel h)
shift_loop-text (suc k) (suc fuel) n t (x ∷ y ∷ rest) h enough small room =
    let (rest', e) =
      shift_loop-text k fuel (n + 1) (t ++ b'0' ∷ []) (0 ∷ rest)
        (omega (arith, h, length-append t (b'0' ∷ []))) (omega arith) (omega arith) (omega arith) in
    (
      rest',
      next_round t rest x y n fuel h k (omega arith)
          ∙ ap (shift_loop fuel (suc k) (n + 1)) (sym (append_assoc t (b'0' ∷ []) (0 ∷ 0 ∷ rest)))
          ∙ e
          ∙ ap some (append_assoc t (b'0' ∷ []) (replicate (suc k) b'0' ++ 0 ∷ rest')),
    )

-- The zeros that a click on k, M or G puts behind a number without a period.
abbrev pub zeros_of : ℕ → ℕ → ℕ
zeros_of c digits =
    if ltb numinput_len ((c - kp_k + 1) * 3 + digits)
    then numinput_len - digits
    else (c - kp_k + 1) * 3

apply_scale-digits :
    (c : ℕ) (t rest : List ℕ)
    → kp_k ≤ c
    → c ≤ kp_g
    → Every IsPlain t
    → length t < numinput_len
    → length t + 1 + length rest ≡ numinput_len + 2
    → (rest' : List ℕ) × (apply_scale c (t ++ 0 ∷ rest)
        ≡ some (t ++ (replicate (zeros_of c (length t)) b'0' ++ 0 ∷ rest')))
      × (0 < zeros_of c (length t))
unfolding apply_scale
apply_scale-digits c t rest low high plain room size =
    let some_zero : 0 < zeros_of c (length t) = ground arith in
    let (rest', e) = shifted (zeros_of c (length t)) some_zero (ground arith) in
    (rest', rw (period_pos-plain t rest plain) e, some_zero)
  where
    shifted :
        (zeros : ℕ)
        → 0 < zeros
        → zeros + length t ≤ numinput_len
        → (rest' : List ℕ) × (shift_loop (2 ^ 16) zeros (length t) (t ++ 0 ∷ rest)
            ≡ some (t ++ (replicate zeros b'0' ++ 0 ∷ rest')))
    shifted zero h fits = absurd (omega arith)
    shifted (suc k) h fits =
        shift_loop-text k (2 ^ 16) (length t) t rest refl (omega arith) (omega arith)
          (omega (arith, size, fits))

-- A click on k, M or G behind a number without a period ends the input and stays inside the buffer of
-- 14 bytes: it puts three, six or nine zeros there, or as many as the input has room for, which is at
-- least one if the number has fewer than twelve bytes.
pub num_keypad_click-digits :
    (maxlength c : ℕ) (t rest : List ℕ)
    → kp_k ≤ c
    → c ≤ kp_g
    → Every IsPlain t
    → 0 < length t
    → length t < numinput_len
    → length t + 1 + length rest ≡ numinput_len + 2
    → (rest' : List ℕ) × (num_keypad_click maxlength c (length t) (t ++ 0 ∷ rest)
        ≡ some (k_done, t ++ (replicate (zeros_of c (length t)) b'0' ++ 0 ∷ rest')))
      × (0 < zeros_of c (length t))
unfolding num_keypad_click end_input
num_keypad_click-digits maxlength c t rest low high plain begun room size =
    let (rest', e, some_zero) = apply_scale-digits c t rest low high plain room size in
    let scales : (leb kp_k c && leb c kp_percent) ≡ true = ground arith in
    let first : (length t == 0) ≡ false = ground arith in
    let shifts : leb c kp_g ≡ true = ground arith in
    (rest', rw (scales, first, shifts, e) refl, some_zero)
