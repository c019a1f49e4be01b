-- ===== src/Shell/Command.antt =====
-- src/sys/shell_service.c: `shell_parse_command` and the lookup of a command. Memory is as in
-- Text/Line; a command function is known by its number.
pub mod Count
pub mod Lookup
use nano_vna_x.Base.{
  ℕ, zero, suc, ◌+◌, ◌-◌, Bool, true, false, Option, none, some, List, [], ◌∷◌, length, drop, ltb,
  ◌==◌, if◌then◌else◌,
}
use nano_vna_x.Text.Line.{parse_line, Parsed}
use nano_vna_x.Text.Line.Split.{c_string}
use nano_vna_x.Text.Options.{get_str_index}

-- An entry of the table; the entry whose name is NULL is its end.
pub record Command : Type 0 where
  pub sc_name : List ℕ
  pub sc_function : ℕ
  pub flags : ℕ

-- get_str_index(...) == 0
abbrev pub is_index_0 : Option ℕ → Bool
is_index_0 none = false
is_index_0 (some i) = i == 0

unfoldable pub find_command : List Command → List ℕ → Option Command
find_command [] arg = none
find_command (cmd ∷ table) arg =
    let later = find_command table arg in
    if is_index_0 (get_str_index cmd.sc_name arg) then some cmd else later

-- ARRAY_COUNT(shell_args)
abbrev pub shell_args_count : ℕ
shell_args_count = 5

-- What a call leaves: the line's memory, the arguments by their offsets, the name's offset, the
-- command, and whether there were too many arguments.
pub record ParsedCommand : Type 0 where
  pub memory : List ℕ
  pub argc : ℕ
  pub argv : List ℕ
  pub name : Option ℕ
  pub command : Option Command
  pub too_many : Bool

-- `table` is none where no table is registered.
unfoldable pub parsed_command : Option (List Command) → List ℕ → List ℕ → ParsedCommand
parsed_command table memory [] = record {
  memory = memory;
  argc = 0;
  argv = [];
  name = none;
  command = none;
  too_many = false;
}
parsed_command table memory (first ∷ args) =
    if ltb shell_args_count (length (first ∷ args))
    then record {
      memory = memory;
      argc = 0;
      argv = [];
      name = none;
      command = none;
      too_many = true;
    }
    else record {
      memory = memory;
      argc = length (first ∷ args) - 1;
      argv = args;
      name = some first;
      command = elim table [
        | none ↦ none
        | some cmds ↦ find_command cmds (c_string (drop first memory))
      ];
      too_many = false;
    }

-- `none` is an access outside the line's buffer.
unfoldable pub shell_parse_command : Option (List Command) → List ℕ → Option ParsedCommand
shell_parse_command table line = elim (parse_line line shell_args_count) [
  | none ↦ none
  | some (memory, args) ↦ some (parsed_command table memory args)
]
