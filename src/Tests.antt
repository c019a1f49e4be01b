-- ===== src/Tests.antt =====
-- The theorems at concrete inputs, and runs of the definitions.
mod Texts
mod Boards
mod Buses
mod Shells
mod Storages
mod Keypads
mod Ranges
mod Sweeps
mod Sweeping
mod Synths
mod Commanded
mod Inputs
mod Frequencies
mod Menus
mod Serials
