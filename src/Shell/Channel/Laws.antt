-- ===== src/Shell/Channel/Laws.antt =====
-- What the loops of the shell send and receive.
use nano_vna_x.Base.{
  ℕ, zero, suc, ◌+◌, ◌-◌, ◌≤◌, ◌<◌, ◌≡◌, refl, ap, sym, subst, ◌∙◌, Bool, true, false, Option, none,
  some, List, [], ◌∷◌, ◌++◌, length, take, drop, ltb, ◌==◌, if◌then◌else◌, arith, take-append-drop,
  length-take, length-drop, append_assoc, Bool-cases, inl, inr, ◌⊎◌, length-append,
}
use mathlib.Core.Option
use mathlib.Core.Option.{some-injective}
use nano_vna_x.Shell.Session.{
  Session, shell_check_connect, shell_handle_session_transition, shell_update_vcp_connection_state,
}
use nano_vna_x.Shell.Channel.{
  WriteAttempt, Written, check_after, delivered_first, write_loop, ReadAttempt, Received,
  received_first, read_loop,
}

map-eq-some :
    {A B : Type 0} (f : A → B) (o : Option A) (b : B)
    → Option.map f o ≡ some b
    → (a : A) × (o ≡ some a) × (f a ≡ b)
map-eq-some f none b e = cc
map-eq-some f (some a) b e = (a, refl, some-injective (f a) b e)

check-off :
    (usb_active vcp : Bool) (s : Session)
    → (check_after usb_active vcp s).0 ≡ false
    → (check_after usb_active vcp s).1.session_active ≡ false
unfolding shell_check_connect shell_handle_session_transition shell_update_vcp_connection_state
check-off usb_active vcp s off = ground arith

-- What a call that returns has sent of the data.
abbrev pub IsSent : List ℕ → Written → Type 0
IsSent bytes w =
    (rest : List ℕ) × (bytes ≡ w.delivered ++ rest)
    × (((w.success ≡ true) × (rest ≡ []))
        ⊎ ((w.success ≡ false) × (w.session.session_active ≡ false)))

first-IsSent :
    (n : ℕ) (bytes : List ℕ) (w : Written)
    → IsSent (drop n bytes) w
    → IsSent bytes (delivered_first (take n bytes) [] w)
first-IsSent n bytes w (rest, e, cases) = (
  rest,
  sym (take-append-drop n bytes)
      ∙ ap (λ l. take n bytes ++ l) e
      ∙ sym (append_assoc (take n bytes) w.delivered rest),
  cases,
)

-- The data that a write has sent is the beginning of what it was given: all of it if the write
-- succeeds, and if it fails the session is over.
pub write_loop-IsSent :
    (attempts : List WriteAttempt) (bytes : List ℕ) (s : Session) (w : Written)
    → write_loop attempts bytes s ≡ some w
    → IsSent bytes w
unfolding write_loop
write_loop-IsSent [] [] s w e =
    subst (IsSent []) (some-injective _ w e) ([], refl, inl (refl, refl))
write_loop-IsSent (a ∷ attempts) [] s w e =
    subst (IsSent []) (some-injective _ w e) ([], refl, inl (refl, refl))
write_loop-IsSent [] (b ∷ bytes) s w e = cc
write_loop-IsSent (a ∷ attempts) (b ∷ bytes) s w e = elim (Bool-cases (ltb 0 a.sent)) [
  | inl moves ↦
      let (w', e', same) = map-eq-some _ _ w (rw moves at e) in
      subst (IsSent (b ∷ bytes)) same (
        first-IsSent a.sent (b ∷ bytes) w'
          (write_loop-IsSent attempts (drop a.sent (b ∷ bytes)) s w' e'))
  | inr stands ↦ elim (Bool-cases (check_after a.usb_active a.vcp_connected s).0) [
    | inl on ↦
        let (w', e', same) = map-eq-some _ _ w (rw (stands, on) at e) in
        subst (IsSent (b ∷ bytes)) same (write_loop-IsSent attempts (b ∷ bytes) _ w' e')
    | inr off ↦
        subst (IsSent (b ∷ bytes)) (some-injective _ w (rw (stands, off) at e))
          (b ∷ bytes, refl, inr (refl, check-off a.usb_active a.vcp_connected s off))
  ]
]

-- The attempts that send something.
unfoldable pub progress : List WriteAttempt → ℕ
progress [] = 0
progress (a ∷ attempts) = (if ltb 0 a.sent then 1 else 0) + progress attempts

write_loop-onward :
    (a : WriteAttempt) (attempts : List WriteAttempt) (b : ℕ) (bytes : List ℕ) (s : Session)
    (w : Written)
    → ltb 0 a.sent ≡ true
    → write_loop attempts (drop a.sent (b ∷ bytes)) s ≡ some w
    → write_loop (a ∷ attempts) (b ∷ bytes) s
      ≡ some (delivered_first (take a.sent (b ∷ bytes)) [] w)
unfolding write_loop
write_loop-onward a attempts b bytes s w moves e = rw (moves, e) refl

write_loop-again :
    (a : WriteAttempt) (attempts : List WriteAttempt) (b : ℕ) (bytes : List ℕ) (s : Session)
    (w : Written)
    → ltb 0 a.sent ≡ false
    → (check_after a.usb_active a.vcp_connected s).0 ≡ true
    → write_loop attempts (b ∷ bytes) (check_after a.usb_active a.vcp_connected s).1 ≡ some w
    → write_loop (a ∷ attempts) (b ∷ bytes) s
      ≡ some (delivered_first [] (check_after a.usb_active a.vcp_connected s).2 w)
unfolding write_loop
write_loop-again a attempts b bytes s w stands on e = rw (stands, on, e) refl

write_loop-some :
    (attempts : List WriteAttempt) (bytes : List ℕ) (s : Session)
    → length bytes ≤ progress attempts
    → (w : Written) × (write_loop attempts bytes s ≡ some w)
unfolding write_loop progress
write_loop-some attempts [] s enough = (_, refl)
write_loop-some [] (b ∷ bytes) s enough = absurd (omega arith)
write_loop-some (a ∷ attempts) (b ∷ bytes) s enough = elim (Bool-cases (ltb 0 a.sent)) [
  | inl moves ↦
      let (w, e) = write_loop-some attempts (drop a.sent (b ∷ bytes)) s (
        let sends : 0 < a.sent = ground arith in
        let left : length bytes ≤ progress attempts = ground arith in
        omega (arith, length-drop a.sent (b ∷ bytes), sends, left)) in
      (
        delivered_first (take a.sent (b ∷ bytes)) [] w,
        write_loop-onward a attempts b bytes s w moves e,
      )
  | inr stands ↦ elim (Bool-cases (check_after a.usb_active a.vcp_connected s).0) [
    | inl on ↦
        let (w, e) =
          write_loop-some attempts (b ∷ bytes) (check_after a.usb_active a.vcp_connected s).1
            (ground arith) in
        (
          delivered_first [] (check_after a.usb_active a.vcp_connected s).2 w,
          write_loop-again a attempts b bytes s w stands on e,
        )
    | inr off ↦
        let (_, s', calls) = check_after a.usb_active a.vcp_connected s in
        (
          record { success = false; delivered = []; session = s'; calls = calls },
          rw (stands, off) refl,
        )
  ]
]

-- A write returns as soon as as many attempts have sent something as there are bytes, and its data
-- is then sent or the session is over.
pub write_loop-returns :
    (attempts : List WriteAttempt) (bytes : List ℕ) (s : Session)
    → length bytes ≤ progress attempts
    → (w : Written) × (write_loop attempts bytes s ≡ some w) × IsSent bytes w
write_loop-returns attempts bytes s enough =
    let (w, e) = write_loop-some attempts bytes s enough in
    (w, e, write_loop-IsSent attempts bytes s w e)

-- What a read that returns has got: all that was asked for, or less, and then the session is over.
abbrev pub IsGot : ℕ → Received → Type 0
IsGot size r =
    (length r.bytes ≤ size) × ((length r.bytes ≡ size) ⊎ (r.session.session_active ≡ false))

chunk-IsGot :
    (size : ℕ) (chunk : List ℕ) (r : Received)
    → length chunk ≤ size
    → IsGot (size - length chunk) r
    → IsGot size (received_first chunk [] r)
chunk-IsGot size chunk r fits (small, inl all) =
    (omega (arith, length-append chunk r.bytes), inl (omega (arith, length-append chunk r.bytes)))
chunk-IsGot size chunk r fits (small, inr off) =
    (omega (arith, length-append chunk r.bytes), inr off)

pub read_loop-IsGot :
    (attempts : List ReadAttempt) (size : ℕ) (s : Session) (r : Received)
    → read_loop attempts size s ≡ some r
    → IsGot size r
unfolding read_loop
read_loop-IsGot [] zero s r e = subst (IsGot 0) (some-injective _ r e) (omega arith, inl refl)
read_loop-IsGot (a ∷ attempts) zero s r e =
    subst (IsGot 0) (some-injective _ r e) (omega arith, inl refl)
read_loop-IsGot [] (suc size) s r e = cc
read_loop-IsGot (a ∷ attempts) (suc size) s r e =
    let chunk = take (suc size) a.got in
    elim (Bool-cases (length chunk == 0)) [
      | inl empty ↦ elim (Bool-cases (check_after a.usb_active a.vcp_connected s).0) [
        | inl on ↦
            let (r', e', same) = map-eq-some _ _ r (rw (empty, on) at e) in
            subst (IsGot (suc size)) same (read_loop-IsGot attempts (suc size) _ r' e')
        | inr off ↦
            subst (IsGot (suc size)) (some-injective _ r (rw (empty, off) at e))
              (omega arith, inr (check-off a.usb_active a.vcp_connected s off))
      ]
      | inr full ↦
          let (r', e', same) = map-eq-some _ _ r (rw full at e) in
          subst (IsGot (suc size)) same (
            chunk-IsGot (suc size) chunk r' (omega (arith, length-take (suc size) a.got))
              (read_loop-IsGot attempts (suc size - length chunk) s r' e'))
    ]
