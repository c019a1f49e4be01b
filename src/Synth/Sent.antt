-- ===== src/Synth/Sent.antt =====
-- What the actions have written to the chip.
use nano_vna_x.Base.{ℕ, Option, none, some, List, [], ◌∷◌, ◌==◌, if◌then◌else◌}
use nano_vna_x.Synth.Driver.{Action, bulk_write, wait_pll_lock, sleep, set_gain}

-- The last transfer that starts at the register.
unfoldable pub block : ℕ → List Action → Option (List ℕ)
block base [] = none
block base (bulk_write [] ∷ actions) = block base actions
block base (bulk_write (reg ∷ bytes) ∷ actions) =
    let earlier = block base actions in if reg == base then some (reg ∷ bytes) else earlier
block base (wait_pll_lock ∷ actions) = block base actions
block base (sleep us ∷ actions) = block base actions
block base (set_gain l r ∷ actions) = block base actions
