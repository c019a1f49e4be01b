-- ===== src/Text.antt =====
-- src/core/common.c: the string and buffer routines that the shell and the keypad share.
-- A C string is the list of its bytes without the terminating NUL; `char` is unsigned, as on ARM.
pub mod Number
pub mod Packbits
pub mod Compare
pub mod Options
pub mod Line
