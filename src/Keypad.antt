-- ===== src/Keypad.antt =====
-- src/ui/core/ui_keypad.c: the click on a key, in its effect on the buffer `kp_buf`. The buffer is
-- the list of its bytes; `none` is an access outside it. Drawing is left out.
pub mod Overrun
pub mod Digits
use nano_vna_x.Base.{
  ℕ, zero, suc, ◌+◌, ◌-◌, ◌*◌, ◌%◌, ◌^◌, Bool, true, false, Option, none, some, List, [], ◌∷◌, ltb,
  leb, ◌==◌, ◌&&◌, ◌||◌, if◌then◌else◌, get_elem?, set, length,
}
use nano_vna_x.Base.Options.{◌>>=◌}

abbrev pub numinput_len : ℕ
numinput_len = 12

abbrev pub kp_period : ℕ
kp_period = 10

abbrev pub kp_minus : ℕ
kp_minus = 11

abbrev pub kp_bs : ℕ
kp_bs = 12

abbrev pub kp_k : ℕ
kp_k = 13

abbrev pub kp_g : ℕ
kp_g = 15

abbrev pub kp_m : ℕ
kp_m = 16

abbrev pub kp_p : ℕ
kp_p = 19

abbrev pub kp_percent : ℕ
kp_percent = 22

pub data Click : Type 0 where
  k_continue k_done k_cancel : Click

-- A read and a write that stay inside the buffer.
abbrev pub read : List ℕ → ℕ → Option ℕ
read buf i = get_elem? buf i

abbrev pub write : List ℕ → ℕ → ℕ → Option (List ℕ)
write buf i v = if ltb i (length buf) then some (set buf i v) else none

-- The index of the first '.' or NUL.
unfoldable pub period_pos : List ℕ → Option ℕ
period_pos [] = none
period_pos (b ∷ buf) =
    let later = period_pos buf in
    if b == 0 || b == b'.' then some 0 else later >>= λ j. some (j + 1)

-- One round of the loop that moves the period to the right.
unfoldable pub shift_round : ℕ → List ℕ → Option (List ℕ)
shift_round i buf = do
  v ← read buf (i + 1)
  w ← read buf i
  ended ← if v == 0 || w == 0 then write buf (i + 2) 0 else some buf
  u ← read ended i
  moved ← write ended (i + 1) u
  write moved i (if v == 0 || w == 0 then b'0' else v)

-- do { ... } while (--scale), where `scale` is a uint16_t and the first argument is fuel: 65536 rounds
-- are enough.
unfoldable pub shift_loop : ℕ → ℕ → ℕ → List ℕ → Option (List ℕ)
shift_loop zero scale i buf = none
shift_loop (suc fuel) scale i buf =
    let left = (scale + 2 ^ 16 - 1) % 2 ^ 16 in
    elim (shift_round i buf) [
      | none ↦ none
      | some buf' ↦
          let later = shift_loop fuel left (i + 1) buf' in if left == 0 then some buf' else later
    ]

-- Apply k, M or G.
unfoldable pub apply_scale : ℕ → List ℕ → Option (List ℕ)
apply_scale c buf = do
  i ← period_pos buf
  let scale = (c - kp_k + 1) * 3
  shift_loop (2 ^ 16) (if ltb numinput_len (scale + i) then numinput_len - i else scale) i buf

-- prefix[c - KP_m]
abbrev pub prefix : ℕ → ℕ
prefix c = if c == 16 then b'm' else if c == 17 then b'u' else if c == 18 then b'n' else b'p'

-- Apply m, u, n or p.
unfoldable pub apply_prefix : ℕ → ℕ → List ℕ → Option (List ℕ)
apply_prefix c kp_index buf = do
  marked ← write buf kp_index (prefix c)
  write marked (kp_index + 1) 0

-- With the click that an operation on the buffer ends in.
abbrev pub clicked : Click → Option (List ℕ) → Option (Click × List ℕ)
clicked k none = none
clicked k (some buf) = some (k, buf)

-- The keys that end the input; KP_X1, KP_ENTER and KP_PERCENT leave the buffer as it is.
unfoldable pub end_input : ℕ → ℕ → List ℕ → Option (Click × List ℕ)
end_input c kp_index buf =
    if kp_index == 0
    then some (k_cancel, buf)
    else if leb c kp_g
    then clicked k_done (apply_scale c buf)
    else if leb c kp_p
    then clicked k_done (apply_prefix c kp_index buf)
    else some (k_done, buf)

-- The loops behind KP_MINUS: the bytes before `n` and the one at it, moved to the left and to the
-- right.
unfoldable pub shift_left : ℕ → ℕ → List ℕ → Option (List ℕ)
shift_left zero i buf = some buf
shift_left (suc n) i buf = do
  v ← read buf (i + 1)
  moved ← write buf i v
  shift_left n (i + 1) moved

unfoldable pub shift_right : ℕ → List ℕ → Option (List ℕ)
shift_right zero buf = some buf
shift_right (suc n) buf = do v ← read buf n; moved ← write buf (suc n) v; shift_right n moved

-- An edit leaves the buffer and the index at which the NUL is put.
abbrev pub with_index : ℕ → Option (List ℕ) → Option (ℕ × List ℕ)
with_index i none = none
with_index i (some buf) = some (i, buf)

unfoldable pub minus_key : ℕ → ℕ → List ℕ → Option (ℕ × List ℕ)
minus_key maxlength kp_index buf = read buf 0 >>= λ b.
    if b == b'-'
    then with_index (kp_index - 1) (shift_left numinput_len 0 buf)
    else with_index (if ltb kp_index maxlength then kp_index + 1 else kp_index)
        (shift_right numinput_len buf >>= λ moved. write moved 0 b'-')

-- A period is put where there is none and the mode is not a date or a time.
unfoldable pub period_key : ℕ → ℕ → List ℕ → Option (ℕ × List ℕ)
period_key maxlength kp_index buf = period_pos buf >>= λ j.
    if kp_index == j && maxlength == numinput_len
    then with_index (kp_index + 1) (write buf kp_index b'.')
    else some (kp_index, buf)

-- A digit or the period.
unfoldable pub append_key : ℕ → ℕ → ℕ → List ℕ → Option (ℕ × List ℕ)
append_key maxlength c kp_index buf =
    if ltb kp_index maxlength
    then if leb c 9
      then with_index (kp_index + 1) (write buf kp_index (48 + c))
      else if c == kp_period
      then period_key maxlength kp_index buf
      else some (kp_index, buf)
    else some (kp_index, buf)

-- kp_buf[kp_index] = 0
abbrev pub ended : Option (ℕ × List ℕ) → Option (Click × List ℕ)
ended none = none
ended (some (i, buf)) = clicked k_continue (write buf i 0)

-- A click on a key of a number, for a mode of at most `maxlength` bytes.
unfoldable pub num_keypad_click : ℕ → ℕ → ℕ → List ℕ → Option (Click × List ℕ)
num_keypad_click maxlength c kp_index buf =
    if leb kp_k c && leb c kp_percent
    then end_input c kp_index buf
    else if c == kp_bs
    then if kp_index == 0
      then some (k_cancel, buf)
      else clicked k_continue (write buf (kp_index - 1) 0)
    else ended (
        if c == kp_minus
        then minus_key maxlength kp_index buf
        else append_key maxlength c kp_index buf)

-- The text keypad, whose Enter and Backspace are `enter` and `larrow`.
unfoldable pub txt_keypad_click : ℕ → ℕ → ℕ → ℕ → ℕ → List ℕ → Option (Click × List ℕ)
txt_keypad_click txtinput_len enter larrow c kp_index buf =
    if c == enter
    then some (if kp_index == 0 then k_cancel else k_done, buf)
    else if c == larrow
    then if kp_index == 0
      then some (k_cancel, buf)
      else clicked k_continue (write buf (kp_index - 1) 0)
    else if ltb kp_index txtinput_len
    then clicked k_continue (write buf kp_index c >>= λ typed. write typed (kp_index + 1) 0)
    else clicked k_continue (write buf kp_index 0)
