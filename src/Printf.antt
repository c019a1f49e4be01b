-- ===== src/Printf.antt =====
-- src/sys/chprintf.c: the number conversions of the formatted output.
pub mod Long
pub mod Freq
