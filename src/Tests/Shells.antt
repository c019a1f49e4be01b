-- ===== src/Tests/Shells.antt =====
-- src/sys/shell_service.c at a small table, a few lines and a connection that stalls.
use nano_vna_x.Base.{
  ◌≡◌, ◌≤◌, refl, true, false, Option, none, some, List, [], ◌∷◌, length, map, arith, ℕ,
}
use nano_vna_x.Shell.Session.{
  Session, SessionEvent, connects, checks, session_run, session_run-Alternates, Alternates,
}
use nano_vna_x.Shell.LineEdit.{vna_shell_read_line, ends_line, edited}
use nano_vna_x.Shell.LineEdit.Laws.{render, read_lines, read_lines-render}
use nano_vna_x.Shell.Channel.{WriteAttempt, Written, write_loop}
use nano_vna_x.Shell.Channel.Laws.{IsSent, progress, write_loop-returns}
use nano_vna_x.Text.Options.{get_str_index}
use nano_vna_x.Text.Options.Index.{first_option}
use nano_vna_x.Text.Line.{parse_line}
use nano_vna_x.Text.Line.Split.{c_string}
use nano_vna_x.Shell.Command.{
  Command, ParsedCommand, parsed_command, find_command, shell_parse_command,
}
use nano_vna_x.Shell.Command.Lookup.{named, find_command-named}
use nano_vna_x.Shell.Pending.{Posted}

abbrev idle : Session
idle = record { session_active = false; start_cb = some 1; stop_cb = some 2; vcp_connected = false }

abbrev plug_and_pull : List SessionEvent
plug_and_pull =
    connects true ∷ checks true ∷ checks true ∷ checks false ∷ connects false ∷ checks true ∷ []

session_run-Alternates_example :
    Alternates 1 2 idle.session_active
      (session_run plug_and_pull idle).1
      (session_run plug_and_pull idle).0.session_active
session_run-Alternates_example = session_run-Alternates 1 2 plug_and_pull idle (refl, refl)

-- "a", a byte that is erased, a control byte, "bc" and CR, in a buffer of three bytes.
abbrev typed : List ℕ
typed = b'a' ∷ b'x' ∷ 8 ∷ 7 ∷ b'b' ∷ b'c' ∷ 13 ∷ []

abbrev typed_line : List ℕ
typed_line = b'a' ∷ b'b' ∷ []

typed_reads : (vna_shell_read_line 3 false typed).line ≡ some typed_line
unfolding vna_shell_read_line ends_line edited
typed_reads = refl

abbrev sent_lines : List (List ℕ)
sent_lines = typed_line ∷ [] ∷ (b'c' ∷ []) ∷ []

read_lines-render_example :
    (read_lines (length sent_lines) 8 false (render sent_lines)).0 ≡ map some sent_lines
read_lines-render_example = read_lines-render 8 sent_lines (omega arith)

-- One byte goes, the channel stalls, then the rest goes.
abbrev stalling : List WriteAttempt
stalling =
    record { sent = 1; usb_active = true; vcp_connected = true }
    ∷ record { sent = 0; usb_active = true; vcp_connected = true }
    ∷ record { sent = 2; usb_active = true; vcp_connected = true }
    ∷ []

abbrev two_bytes : List ℕ
two_bytes = 65 ∷ 66 ∷ []

write_loop-returns_example :
    (w : Written) × (write_loop stalling two_bytes idle ≡ some w) × IsSent two_bytes w
unfolding progress
write_loop-returns_example = write_loop-returns stalling two_bytes idle enough
  where
    enough : length two_bytes ≤ progress stalling
    enough = omega arith

abbrev scan : Command
scan = record { sc_name = b's' ∷ b'c' ∷ []; sc_function = 11; flags = 3 }

abbrev table : List Command
table = record { sc_name = b'd' ∷ []; sc_function = 10; flags = 0 } ∷ scan ∷ []

-- The command "sc|x" runs the command "sc".
find_command-named_example :
    find_command table (b's' ∷ b'c' ∷ b'|' ∷ b'x' ∷ [])
    ≡ named table (first_option (b's' ∷ b'c' ∷ b'|' ∷ b'x' ∷ []))
find_command-named_example =
    find_command-named table (b's' ∷ b'c' ∷ b'|' ∷ b'x' ∷ []) (omega arith) (omega arith)

-- "sc 1 2 3 4 5 6": the last two arguments are dropped.
abbrev long_line : List ℕ
long_line =
    b's' ∷ b'c' ∷ b' ' ∷ b'1' ∷ b' ' ∷ b'2' ∷ b' ' ∷ b'3' ∷ b' ' ∷ b'4' ∷ b' ' ∷ b'5' ∷ b' ' ∷ b'6'
    ∷ 0 ∷ []

abbrev long_parsed : ParsedCommand
long_parsed = record {
  memory = b's' ∷ b'c' ∷ 0 ∷ b'1' ∷ 0 ∷ b'2' ∷ 0 ∷ b'3' ∷ 0 ∷ b'4' ∷ 0 ∷ b'5' ∷ 0 ∷ b'6' ∷ 0 ∷ [];
  argc = 4;
  argv = 3 ∷ 5 ∷ 7 ∷ 9 ∷ [];
  name = some 0;
  command = some scan;
  too_many = false;
}

long_parses : shell_parse_command (some table) long_line ≡ some long_parsed
unfolding shell_parse_command parsed_command find_command get_str_index parse_line c_string
long_parses = refl

abbrev first_posted : Posted
first_posted = record { command = scan; argv = 3 ∷ [] }

abbrev next_posted : Posted
next_posted = record {
  command = record { sc_name = b'd' ∷ []; sc_function = 10; flags = 0 };
  argv = [];
}

-- A second command is posted during the first, and a third only after the loop has ended.
abbrev some_posts : List (Option Posted)
some_posts = some next_posted ∷ none ∷ some first_posted ∷ []
