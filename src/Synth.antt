-- ===== src/Synth.antt =====
-- src/driver/si5351.c: the driver of the synthesizer. `si5351_set_frequency` chooses a band for the
-- frequency, programs the PLLs and the dividers of the chip for it, and remembers what it has done.
pub mod Fraction
pub mod Registers
pub mod Bands
pub mod Driver
pub mod Tune
pub mod Sent
pub mod Divided
pub mod Does
pub mod Remember
pub mod Repeat
pub mod Cached
pub mod SameDiv
pub mod Outputs
pub mod Tuned
