-- ===== src/Shell/Session.antt =====
-- src/sys/shell_service.c: sessions, which start and stop as the connection comes and goes. A
-- callback is known by its number; the calls that are made are returned in order.
use nano_vna_x.Base.{
  ℕ, ◌≡◌, refl, Bool, true, false, Option, none, some, List, [], ◌∷◌, ◌++◌, not, ◌&&◌,
  if◌then◌else◌, arith, ◌⊎◌, inl, inr, Bool-cases, subst, sym,
}

pub record Session : Type 0 where
  pub session_active : Bool
  pub start_cb : Option ℕ
  pub stop_cb : Option ℕ
  pub vcp_connected : Bool

abbrev call_if_set : Option ℕ → List ℕ
call_if_set none = []
call_if_set (some f) = f ∷ []

unfoldable pub shell_handle_session_transition : Bool → Session → Session × List ℕ
shell_handle_session_transition active s =
    if active && not s.session_active
    then (record s { session_active = true }, call_if_set s.start_cb)
    else if not active && s.session_active
    then (record s { session_active = false }, call_if_set s.stop_cb)
    else (s, [])

unfoldable pub shell_update_vcp_connection_state : Bool → Session → Session
shell_update_vcp_connection_state connected s = record s { vcp_connected = connected }

-- `usb_active` is whether the USB driver is in the state USB_ACTIVE.
unfoldable pub shell_check_connect : Bool → Session → Bool × Session × List ℕ
shell_check_connect usb_active s =
    let active = usb_active && s.vcp_connected in
    let (s', calls) = shell_handle_session_transition active s in (active, s', calls)

unfoldable pub shell_register_session_start_callback : Option ℕ → Session → Session × List ℕ
shell_register_session_start_callback callback s =
    (record s { start_cb = callback }, if s.session_active then call_if_set callback else [])

unfoldable pub shell_register_session_stop_callback : Option ℕ → Session → Session
shell_register_session_stop_callback callback s = record s { stop_cb = callback }

-- What happens to a session: the connection of the virtual port changes, or it is checked.
pub data SessionEvent : Type 0 where
  connects checks : Bool → SessionEvent

pub session_step : SessionEvent → Session → Session × List ℕ
session_step (connects connected) s = (shell_update_vcp_connection_state connected s, [])
session_step (checks usb_active) s =
    let (active, s', calls) = shell_check_connect usb_active s in (s', calls)

pub session_run : List SessionEvent → Session → Session × List ℕ
session_run [] s = (s, [])
session_run (e ∷ es) s =
    let (s', calls) = session_step e s in
    let (s'', later) = session_run es s' in (s'', calls ++ later)

-- Starts and stops in turn, from a session that is on or off, to one that is.
pub data Alternates (start stop : ℕ) : Bool → List ℕ → Bool → Type 0 where
  done : {on : Bool} → Alternates start stop on [] on
  starts :
      {calls : List ℕ} {on : Bool}
      → Alternates start stop true calls on
      → Alternates start stop false (start ∷ calls) on
  stops :
      {calls : List ℕ} {on : Bool}
      → Alternates start stop false calls on
      → Alternates start stop true (stop ∷ calls) on

abbrev HasCallbacks : ℕ → ℕ → Session → Type 0
HasCallbacks start stop s = (s.start_cb ≡ some start) × (s.stop_cb ≡ some stop)

-- What one event does: nothing, a start or a stop.
abbrev StepCases : ℕ → ℕ → Session → Session × List ℕ → Type 0
StepCases start stop s (s', calls) =
    ((calls ≡ []) × (s'.session_active ≡ s.session_active))
    ⊎ ((calls ≡ start ∷ []) × (s.session_active ≡ false) × (s'.session_active ≡ true))
    ⊎ ((calls ≡ stop ∷ []) × (s.session_active ≡ true) × (s'.session_active ≡ false))

session_step_cases :
    (start stop : ℕ) (e : SessionEvent) (s : Session)
    → HasCallbacks start stop s
    → StepCases start stop s (session_step e s) × HasCallbacks start stop (session_step e s).0
unfolding session_step shell_check_connect shell_handle_session_transition
    shell_update_vcp_connection_state
session_step_cases start stop (connects connected) s set = (inl (refl, refl), set)
session_step_cases start stop (checks usb_active) s set =
    elim (Bool-cases (usb_active && s.vcp_connected)) [
      | inl up ↦ elim (Bool-cases s.session_active) [
        | inl on ↦ (inl (ground arith, ground arith), ground arith)
        | inr off ↦ (inr (inl (ground arith, off, ground arith)), ground arith)
      ]
      | inr down ↦ elim (Bool-cases s.session_active) [
        | inl on ↦ (inr (inr (ground arith, on, ground arith)), ground arith)
        | inr off ↦ (inl (ground arith, ground arith), ground arith)
      ]
    ]

Alternates-cons :
    (start stop : ℕ) (s s' : Session) (calls later : List ℕ) (on : Bool)
    → StepCases start stop s (s', calls)
    → Alternates start stop s'.session_active later on
    → Alternates start stop s.session_active (calls ++ later) on
Alternates-cons start stop s s' calls later on (inl (none_made, same)) h =
    subst (λ b. Alternates start stop b (calls ++ later) on) same
      (subst (λ l. Alternates start stop s'.session_active (l ++ later) on) (sym none_made) h)
Alternates-cons start stop s s' calls later on (inr (inl (made, off, up))) h =
    subst (λ b. Alternates start stop b (calls ++ later) on) (sym off)
      (subst (λ l. Alternates start stop false (l ++ later) on) (sym made)
        (starts (subst (λ b. Alternates start stop b later on) up h)))
Alternates-cons start stop s s' calls later on (inr (inr (made, was_on, down))) h =
    subst (λ b. Alternates start stop b (calls ++ later) on) (sym was_on)
      (subst (λ l. Alternates start stop true (l ++ later) on) (sym made)
        (stops (subst (λ b. Alternates start stop b later on) down h)))

-- With both callbacks set, whatever the connection does and whenever it is checked, the callbacks
-- are called in turn, the one that stops a session only while one is active and the one that starts
-- it only while none is, and the session is active at the end exactly if the last call started it
-- or, where none was made, if it was before.
pub session_run-Alternates :
    (start stop : ℕ) (es : List SessionEvent) (s : Session)
    → (s.start_cb ≡ some start) × (s.stop_cb ≡ some stop)
    → Alternates start stop s.session_active
        (session_run es s).1
        (session_run es s).0.session_active
unfolding session_run
session_run-Alternates start stop [] s set = done
session_run-Alternates start stop (e ∷ es) s set =
    let (cases, set') = session_step_cases start stop e s set in
    Alternates-cons start stop s (session_step e s).0 (session_step e s).1
      (session_run es (session_step e s).0).1 (session_run es (session_step e s).0).0.session_active
      cases (session_run-Alternates start stop es (session_step e s).0 set')
