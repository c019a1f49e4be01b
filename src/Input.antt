-- ===== src/Input.antt =====
-- src/ui/core/hardware_input.c: the lever with its button. The time is a 32-bit clock that wraps. A
-- look of a loop reads the clock and the buttons; a list of looks that ends is a loop that still waits.
pub mod Events
use nano_vna_x.Base.{
  ℕ, ◌+◌, Bool, true, false, not, ◌&&◌, ◌||◌, Option, none, some, List, [], ◌∷◌, ltb, leb,
  if◌then◌else◌, u32, sub32,
}

-- The bits BUTTON_DOWN, BUTTON_PUSH and BUTTON_UP
pub record Buttons : Type 0 where
  pub down : Bool
  pub push : Bool
  pub up : Bool

-- The bits of the events
pub record Event : Type 0 where
  pub single_click : Bool
  pub down_long : Bool
  pub up : Bool
  pub down : Bool
  pub repeat : Bool

-- last_button, last_button_down_ticks and last_button_repeat_ticks
pub record Input : Type 0 where
  pub last_button : Buttons
  pub last_button_down_ticks : ℕ
  pub last_button_repeat_ticks : ℕ

-- BUTTON_DEBOUNCE_TICKS, BUTTON_DOWN_LONG_TICKS and BUTTON_REPEAT_TICKS
pub record Ticks : Type 0 where
  pub debounce : ℕ
  pub down_long : ℕ
  pub repeat : ℕ

abbrev pub no_event : Event
no_event = record {
  single_click = false;
  down_long = false;
  up = false;
  down = false;
  repeat = false;
}

unfoldable pub ui_input_reset_state : ℕ → Buttons → Input → Input
ui_input_reset_state ticks buttons s = record {
  last_button = buttons;
  last_button_down_ticks = ticks;
  last_button_repeat_ticks = ticks;
}

-- The two lever contacts are exchanged if the display is flipped: inverting both, where they differ,
-- exchanges them.
unfoldable pub ui_input_get_buttons : Bool → Buttons → Buttons
ui_input_get_buttons flip b = if flip then record { down = b.up; push = b.push; up = b.down } else b

-- last ^ current, and with current
abbrev pub changed : Buttons → Buttons → Buttons
changed a b = record {
  down = not (a.down && b.down) && (a.down || b.down);
  push = not (a.push && b.push) && (a.push || b.push);
  up = not (a.up && b.up) && (a.up || b.up);
}

abbrev pub button_set : Buttons → Buttons → Buttons
button_set last current =
    let d = changed last current in
    record { down = d.down && current.down; push = d.push && current.push; up = d.up && current.up }

-- The loop that waits for the contacts to settle: the time of the look that ends it, and the looks
-- behind it.
unfoldable pub debounced : Ticks → Input → List ℕ → Option ℕ
debounced t s [] = none
debounced t s (ticks ∷ looks) =
    let later = debounced t s looks in
    if ltb t.debounce (sub32 ticks s.last_button_down_ticks) then some ticks else later

-- What ui_input_check makes of the buttons at that time.
unfoldable pub checked : Bool → ℕ → Buttons → Input → Event × Input
unfolding ui_input_get_buttons
checked flip ticks buttons s =
    let current = ui_input_get_buttons flip buttons in
    let d = button_set s.last_button current in
    (
      record { single_click = d.push; down_long = false; up = d.up; down = d.down; repeat = false },
      record s { last_button = current; last_button_down_ticks = ticks },
    )

unfoldable pub ui_input_check : Ticks → Bool → List ℕ → Buttons → Input → Option (Event × Input)
unfolding debounced checked
ui_input_check t flip looks buttons s = elim (debounced t s looks) [
  | none ↦ none
  | some ticks ↦ some (checked flip ticks buttons s)
]

abbrev pub any : Buttons → Bool
any b = b.down || b.push || b.up

-- The events of a lever that is held.
abbrev pub repeated : Buttons → Event
repeated b = record {
  single_click = false;
  down_long = false;
  up = b.up;
  down = b.down;
  repeat = b.down || b.up;
}

-- A look of ui_input_wait_release; `none` is a look that goes on.
unfoldable pub release_look : Ticks → Bool → ℕ → Buttons → Input → Option (Event × Input)
unfolding ui_input_get_buttons
release_look t flip ticks buttons s =
    let dt = sub32 ticks s.last_button_down_ticks in
    let current = ui_input_get_buttons flip buttons in
    let d = changed s.last_button current in
    if leb t.down_long dt && current.push
    then some (record no_event { down_long = true }, s)
    else if d.push
    then some (record no_event { single_click = true }, s)
    else if any d
    then some (no_event, record s { last_button = current; last_button_down_ticks = ticks })
    else if ltb t.down_long dt && ltb s.last_button_repeat_ticks ticks
    then some (repeated current, record s { last_button_repeat_ticks = u32 (ticks + t.repeat) })
    else none

unfoldable pub ui_input_wait_release :
    Ticks → Bool → List (ℕ × Buttons) → Input → Option (Event × Input)
unfolding release_look
ui_input_wait_release t flip [] s = none
ui_input_wait_release t flip ((ticks, buttons) ∷ looks) s =
    let later = ui_input_wait_release t flip looks s in
    elim (release_look t flip ticks buttons s) [ none ↦ later | some r ↦ some r ]
