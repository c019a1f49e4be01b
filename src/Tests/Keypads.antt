-- ===== src/Tests/Keypads.antt =====
-- src/ui/core/ui_keypad.c at short and full inputs.
use nano_vna_x.Base.{ℕ, ◌<◌, ◌≡◌, refl, some, none, List, [], ◌∷◌, ◌++◌, replicate, arith}
use nano_vna_x.Keypad.{k_done, num_keypad_click}
use nano_vna_x.Keypad.Overrun.{num_keypad_click-overrun}
use nano_vna_x.Keypad.Digits.{zeros_of, num_keypad_click-digits}

-- "43", then M.
num_keypad_click-digits_example :
    (rest' : List ℕ) × (num_keypad_click 12 14 2 ((b'4' ∷ b'3' ∷ []) ++ 0 ∷ replicate 11 0)
      ≡ some (k_done, (b'4' ∷ b'3' ∷ []) ++ (replicate (zeros_of 14 2) b'0' ++ 0 ∷ rest')))
    × (0 < zeros_of 14 2)
num_keypad_click-digits_example =
    num_keypad_click-digits 12 14 (b'4' ∷ b'3' ∷ []) (replicate 11 0) (omega arith) (omega arith)
      (omega arith) (omega arith) (omega arith) (omega arith)

-- Twelve ones, then k.
num_keypad_click-overrun_example :
    num_keypad_click 12 13 12 (replicate 12 b'1' ++ 0 ∷ 0 ∷ []) ≡ none
num_keypad_click-overrun_example =
    num_keypad_click-overrun 12 13 0 (replicate 12 b'1') (omega arith) (omega arith) (omega arith)
      refl
