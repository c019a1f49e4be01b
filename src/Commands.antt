-- ===== src/Commands.antt =====
-- src/sys/shell_commands.c: the commands that check their arguments and set the range or the markers.
-- A command takes the texts of its arguments. What it prints is left out but for the kind.
pub mod Range
pub mod Scan
pub mod Marker
use nano_vna_x.Base.{ℕ}

-- Nothing, the state, the usage, or that a value is out of its range.
pub data Reply : Type 0 where
  quiet report usage out_of_range : Reply
