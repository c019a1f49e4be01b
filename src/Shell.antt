-- ===== src/Shell.antt =====
-- src/sys/shell_service.c: the command shell on the USB port, in a build without a serial console.
pub mod Session
pub mod LineEdit
pub mod Channel
pub mod Command
pub mod Pending
