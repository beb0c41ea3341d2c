-- ===== src/Examples.antt =====
-- Runs of the definitions at concrete inputs, and the theorems at inputs where their conditions hold.
mod Configs
mod Commands
mod Retries
mod Breakers
mod Scans
mod Counters
mod Classified
mod Copies
mod Modes
mod Tunnels
mod Reverses
mod Endings
