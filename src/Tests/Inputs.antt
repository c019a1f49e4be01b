-- ===== src/Tests/Inputs.antt =====
-- src/ui/core/hardware_input.c with a clock that goes on.
use nano_vna_x.Base.{ℕ, ◌≡◌, true, false, not, ◌&&◌, List, [], ◌∷◌}
use nano_vna_x.Input.{Buttons, Input, Ticks, ui_input_reset_state, checked}
use nano_vna_x.Input.Events.{checked-reset}

abbrev ticks : Ticks
ticks = record { debounce = 200; down_long = 5000; repeat = 300 }

abbrev released : Buttons
released = record { down = false; push = false; up = false }

abbrev pressed : Buttons
pressed = record { down = false; push = true; up = false }

abbrev lever : Buttons
lever = record { down = true; push = false; up = false }

abbrev idle : Input
idle = record { last_button = released; last_button_down_ticks = 0; last_button_repeat_ticks = 0 }

-- Down, held and up.
abbrev click_once : List (List ℕ × Buttons)
click_once = (100 ∷ 300 ∷ [], pressed) ∷ (600 ∷ [], pressed) ∷ (900 ∷ [], released) ∷ []

checked-reset_example :
    ((checked false 900 lever (ui_input_reset_state 300 lever idle)).0.up ≡ false)
    × ((checked false 900 lever (ui_input_reset_state 300 lever idle)).0.down ≡ false)
    × ((checked true 900 lever (ui_input_reset_state 300 lever idle)).0.up
        ≡ (lever.down && not lever.up))
    × ((checked true 900 lever (ui_input_reset_state 300 lever idle)).0.down
        ≡ (lever.up && not lever.down))
checked-reset_example = checked-reset 300 900 lever idle
