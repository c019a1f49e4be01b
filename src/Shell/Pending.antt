-- ===== src/Shell/Pending.antt =====
-- src/sys/shell_service.c: commands that the shell's thread hands to the sweep's thread, and a line
-- that is run at once. A command function is known by its number; what it does to the flag
-- `shell_auto_resume` is a parameter.
pub mod Handshake
use nano_vna_x.Base.{
  ℕ, zero, suc, ◌+◌, ◌/◌, ◌%◌, Bool, true, false, Option, none, some, List, [], ◌∷◌, ◌++◌, ◌==◌,
  ◌&&◌, ◌||◌, not, if◌then◌else◌,
}
use nano_vna_x.Base.Options.{◌>>=◌}
use nano_vna_x.Shell.Command.{Command, ParsedCommand, shell_parse_command}

-- pending_command, pending_argc and pending_argv
pub record Posted : Type 0 where
  pub command : Command
  pub argv : List ℕ

-- What the loop does, in order.
pub data Action : Type 0 where
  pause_sweep : Action
  call : ℕ → List ℕ → Action
  resume_sweep : Action
  wake : Action

-- The bit of a flag, whose value is a power of two.
abbrev pub has_flag : ℕ → ℕ → Bool
has_flag flags flag = flags / flag % 2 == 1

abbrev pub cmd_wait_mutex : ℕ
cmd_wait_mutex = 1

abbrev pub cmd_break_sweep : ℕ
cmd_break_sweep = 2

abbrev pub cmd_run_in_load : ℕ
cmd_run_in_load = 8

abbrev pub cmd_no_auto_resume : ℕ
cmd_no_auto_resume = 16

-- One round: the actions, and shell_auto_resume behind it.
unfoldable pub service_command : (ℕ → List ℕ → Bool → Bool) → Posted → Bool → List Action × Bool
service_command effect p auto_resume =
    let flags = p.command.flags in
    let pauses =
      if has_flag flags cmd_break_sweep || has_flag flags cmd_wait_mutex
      then pause_sweep ∷ []
      else [] in
    let auto = effect p.command.sc_function p.argv auto_resume in
    let resumes =
      if auto
      then if not (has_flag flags cmd_no_auto_resume) then resume_sweep ∷ [] else []
      else [] in
    (pauses ++ (call p.command.sc_function p.argv ∷ (resumes ++ (wake ∷ []))), false)

-- shell_request_deferred_execution posts a command, over one that still waits, and blocks its
-- thread; the result is what is posted, and whether the event is published when the thread goes on,
-- which it is if a bus is attached.
unfoldable pub shell_request_deferred_execution :
    Bool → Command → List ℕ → Option Posted → Option Posted × Bool
shell_request_deferred_execution bus command argv pending =
    (some (record { command = command; argv = argv }), bus)

-- pending_command with its arguments, and shell_auto_resume
pub record PendingState : Type 0 where
  pub pending_command : Option Posted
  pub shell_auto_resume : Bool

-- What the shell's thread does to the slot while a command runs: nothing, or it posts.
unfoldable pub posts : Option Posted → PendingState → PendingState
unfolding shell_request_deferred_execution
posts none s = s
posts (some q) s = record s {
  pending_command = (shell_request_deferred_execution true q.command q.argv s.pending_command).0;
}

-- One round for the command that was read: the slot is cleared before the command is called.
unfoldable pub service_round :
    (ℕ → List ℕ → Bool → Bool) → Posted → Option Posted → PendingState → List Action × PendingState
unfolding posts service_command
service_round effect p arrival s =
    let cleared : PendingState = record s { pending_command = none } in
    let during = posts arrival cleared in
    let (acts, auto) = service_command effect p s.shell_auto_resume in
    (acts, record during { shell_auto_resume = auto })

-- What the shell's thread does in the next round, and then.
abbrev pub arrival : List (Option Posted) → Option Posted
arrival [] = none
arrival (next ∷ arrivals) = next

abbrev pub arrivals_behind : List (Option Posted) → List (Option Posted)
arrivals_behind [] = []
arrivals_behind (next ∷ arrivals) = arrivals

-- The loop, with what the shell's thread does in each round; behind the end of that list it does
-- nothing. `none` is a loop that has not ended on its fuel.
unfoldable pub shell_service_pending_commands :
    ℕ
    → (ℕ → List ℕ → Bool → Bool)
    → List (Option Posted)
    → PendingState
    → Option (List Action × PendingState)
unfolding service_round
shell_service_pending_commands zero effect arrivals s = none
shell_service_pending_commands (suc fuel) effect arrivals s = elim s.pending_command [
  | none ↦ some ([], s)
  | some p ↦
      let (acts, s') = service_round effect p (arrival arrivals) s in
      shell_service_pending_commands fuel effect (arrivals_behind arrivals) s' >>= λ r.
      let (others, last) = r in some (acts ++ others, last)
]

-- shell_on_event: does the message start the loop? The topic is none for no message.
unfoldable pub shell_on_event : ℕ → Option ℕ → Bool
shell_on_event command_pending none = false
shell_on_event command_pending (some topic) = topic == command_pending

-- A line that is run at once: the call that is made, and the stream behind it. The streams are
-- `previous`, and `restored`, which shell_restore_stream sets. `none` is an access outside the line.
unfoldable pub vna_shell_execute_cmd_line :
    Option (List Command) → List ℕ → Option ℕ → Option ℕ → Option (Option (ℕ × List ℕ) × Option ℕ)
vna_shell_execute_cmd_line table line previous restored =
    let stream : Option ℕ = elim previous [ none ↦ restored | some s ↦ some s ] in
    elim (shell_parse_command table line) [
      | none ↦ none
      | some p ↦ elim p.command [
        | none ↦ some (none, stream)
        | some cmd ↦
            if has_flag cmd.flags cmd_run_in_load
            then some (some (cmd.sc_function, p.argv), stream)
            else some (none, stream)
      ]
    ]
