-- ===== src/Shell/Channel.antt =====
-- src/sys/shell_service.c: the loops that write to the channel and read from it, and printing. An
-- attempt is what the channel does with a call, and the state of the connection after it; the loops
-- look at the connection only where the channel has done nothing.
pub mod Laws
use nano_vna_x.Base.{
  not, ℕ, zero, suc, ◌+◌, ◌-◌, ◌≤◌, ◌<◌, ◌≡◌, refl, ap, sym, subst, ◌∙◌, Bool, true, false, Option,
  none, some, List, [], ◌∷◌, ◌++◌, length, take, drop, ltb, ◌==◌, if◌then◌else◌, arith,
  take-append-drop, length-take, length-drop, append_assoc, append-nil, Bool-cases, inl, inr, ◌⊎◌,
  Every,
}
use mathlib.Core.Option
use mathlib.Core.Option.{some-injective}
use nano_vna_x.Shell.Session.{Session, shell_check_connect, shell_update_vcp_connection_state}

-- The bytes that are sent, or that the channel would send at most.
pub record WriteAttempt : Type 0 where
  pub sent : ℕ
  pub usb_active : Bool
  pub vcp_connected : Bool

pub record Written : Type 0 where
  pub success : Bool
  pub delivered : List ℕ
  pub session : Session
  pub calls : List ℕ

-- The connection is checked after an attempt that has done nothing.
abbrev pub check_after : Bool → Bool → Session → Bool × Session × List ℕ
check_after usb_active vcp s =
    shell_check_connect usb_active (shell_update_vcp_connection_state vcp s)

abbrev pub delivered_first : List ℕ → List ℕ → Written → Written
delivered_first bytes calls w = record w {
  delivered = bytes ++ w.delivered;
  calls = calls ++ w.calls;
}

-- The loop, over the data that is not written yet; `none` is a loop that still waits.
unfoldable pub write_loop : List WriteAttempt → List ℕ → Session → Option Written
write_loop attempts [] s = some (record { success = true; delivered = []; session = s; calls = [] })
write_loop [] (b ∷ bytes) s = none
write_loop (a ∷ attempts) (b ∷ bytes) s =
    let (active, s', calls) = check_after a.usb_active a.vcp_connected s in
    let onward =
      Option.map (delivered_first (take a.sent (b ∷ bytes)) [])
        (write_loop attempts (drop a.sent (b ∷ bytes)) s) in
    let again = Option.map (delivered_first [] calls) (write_loop attempts (b ∷ bytes) s') in
    if ltb 0 a.sent
    then onward
    else if active
    then again
    else some (record { success = false; delivered = []; session = s'; calls = calls })

-- A channel or data that is NULL is `false`.
unfoldable pub shell_io_write : Bool → Bool → List WriteAttempt → List ℕ → Session → Option Written
shell_io_write channel some_data attempts bytes s =
    if channel
    then if some_data
      then write_loop attempts bytes s
      else some (record { success = false; delivered = []; session = s; calls = [] })
    else some (record { success = false; delivered = []; session = s; calls = [] })

-- The print buffer of 96 bytes keeps one for its NUL. `text` is what chvprintf makes.
unfoldable pub shell_printf : Bool → List WriteAttempt → List ℕ → Session → Option (ℕ × Written)
shell_printf stream attempts text s =
    let kept = take 95 text in
    let nothing : Written = record { success = true; delivered = []; session = s; calls = [] } in
    if not stream
    then some (0, nothing)
    else if length kept == 0
    then some (0, nothing)
    else Option.map (λ w. (if w.success then length kept else 0, w))
        (shell_io_write stream true attempts kept s)

-- The bytes that a read attempt gets, of which the loop has room for some.
pub record ReadAttempt : Type 0 where
  pub got : List ℕ
  pub usb_active : Bool
  pub vcp_connected : Bool

pub record Received : Type 0 where
  pub bytes : List ℕ
  pub session : Session
  pub calls : List ℕ

abbrev pub received_first : List ℕ → List ℕ → Received → Received
received_first bytes calls r = record r { bytes = bytes ++ r.bytes; calls = calls ++ r.calls }

unfoldable pub read_loop : List ReadAttempt → ℕ → Session → Option Received
read_loop attempts zero s = some (record { bytes = []; session = s; calls = [] })
read_loop [] (suc size) s = none
read_loop (a ∷ attempts) (suc size) s =
    let chunk = take (suc size) a.got in
    let (active, s', calls) = check_after a.usb_active a.vcp_connected s in
    let onward =
      Option.map (received_first chunk []) (read_loop attempts (suc size - length chunk) s) in
    let again = Option.map (received_first [] calls) (read_loop attempts (suc size) s') in
    if length chunk == 0
    then if active then again else some (record { bytes = []; session = s'; calls = calls })
    else onward

unfoldable pub shell_io_read : Bool → Bool → List ReadAttempt → ℕ → Session → Option Received
shell_io_read channel some_data attempts size s =
    if channel
    then if some_data
      then read_loop attempts size s
      else some (record { bytes = []; session = s; calls = [] })
    else some (record { bytes = []; session = s; calls = [] })
