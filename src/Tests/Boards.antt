-- ===== src/Tests/Boards.antt =====
-- src/driver/board_events.c: a burst of button events.
use nano_vna_x.Base.{ℕ, List, [], ◌∷◌}

abbrev earlier_channels : List ℕ
earlier_channels = 1 ∷ 2 ∷ []
