-- ===== src/Input/Events.antt =====
-- The events of several calls of ui_input_check.
use nano_vna_x.Base.{
  ℕ, ◌+◌, ◌≤◌, ◌<◌, ◌≡◌, Bool, true, false, not, ◌&&◌, Option, some, List, [], ◌∷◌, ◌++◌, Every,
  sub32, if◌then◌else◌, arith,
}
use nano_vna_x.Base.Options.{◌>>=◌}
use nano_vna_x.Input.{
  Buttons, Event, Input, Ticks, ui_input_get_buttons, ui_input_reset_state, checked, ui_input_check,
}

-- Calls, each with the looks of its loop and the buttons behind it, and their events.
pub calls : Ticks → Bool → List (List ℕ × Buttons) → Input → Option (List Event)
calls t flip [] s = some []
calls t flip ((looks, buttons) ∷ rest) s = ui_input_check t flip looks buttons s >>= λ r.
    let (event, s') = r in calls t flip rest s' >>= λ events. some (event ∷ events)

-- The looks of each call are some that come at most the debounce time after the time `last`, then one
-- that comes later, and any others; the later one is the `last` of the next call. The time between
-- two readings of the clock is the difference modulo 2 ^ 32.
unfoldable pub Settles : Ticks → ℕ → List (List ℕ × Buttons) → Type 0
Settles t last [] = Unit
Settles t last ((looks, buttons) ∷ rest) =
    (early : List ℕ) × (late : ℕ) × (others : List ℕ) × (looks ≡ early ++ late ∷ others)
    × Every (λ x. sub32 x last ≤ t.debounce) early
    × (t.debounce < sub32 late last)
    × Settles t late rest

pub clicks : List Event → ℕ
clicks [] = 0
clicks (event ∷ events) = (if event.single_click then 1 else 0) + clicks events

-- How often the button goes down in a sequence of readings.
pub presses : Buttons → List (List ℕ × Buttons) → ℕ
presses last [] = 0
presses last ((looks, b) ∷ rest) = (if b.push && not last.push then 1 else 0) + presses b rest

-- After a reset, a call that reads the same buttons reports nothing if the display is not flipped; if
-- it is, a lever that is held at that time is reported, as pressed to the other side.
pub checked-reset :
    (ticks ticks' : ℕ) (b : Buttons) (s : Input)
    → ((checked false ticks' b (ui_input_reset_state ticks b s)).0.up ≡ false)
      × ((checked false ticks' b (ui_input_reset_state ticks b s)).0.down ≡ false)
      × ((checked true ticks' b (ui_input_reset_state ticks b s)).0.up ≡ (b.down && not b.up))
      × ((checked true ticks' b (ui_input_reset_state ticks b s)).0.down ≡ (b.up && not b.down))
unfolding checked ui_input_get_buttons ui_input_reset_state
checked-reset ticks ticks' b s = (ground arith, ground arith, ground arith, ground arith)
