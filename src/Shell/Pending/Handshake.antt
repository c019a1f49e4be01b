-- ===== src/Shell/Pending/Handshake.antt =====
-- Which commands run, and how often the thread that posts them is woken.
use nano_vna_x.Base.{false, Option, none, some, List, [], ◌∷◌}
use nano_vna_x.Shell.Pending.{Posted, PendingState, Action, pause_sweep, call, resume_sweep, wake}

-- The calls and the wakes among the actions.
pub calls_and_wakes : List Action → List Action
calls_and_wakes [] = []
calls_and_wakes (pause_sweep ∷ acts) = calls_and_wakes acts
calls_and_wakes (call f args ∷ acts) = call f args ∷ calls_and_wakes acts
calls_and_wakes (resume_sweep ∷ acts) = calls_and_wakes acts
calls_and_wakes (wake ∷ acts) = wake ∷ calls_and_wakes acts

-- Each command is called once, and its thread is woken once behind it.
pub handshakes : List Posted → List Action
handshakes [] = []
handshakes (p ∷ ps) = call p.command.sc_function p.argv ∷ (wake ∷ handshakes ps)

-- The command that waits, and those that are posted in one round after the other behind it.
pub in_row : Posted → List (Option Posted) → List Posted
in_row p [] = p ∷ []
in_row p (none ∷ arrivals) = p ∷ []
in_row p (some q ∷ arrivals) = p ∷ in_row q arrivals

-- Nothing waits.
abbrev pub nothing_waits : PendingState
nothing_waits = record { pending_command = none; shell_auto_resume = false }
