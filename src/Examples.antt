-- ===== src/Examples.antt =====
-- Concrete runs: each theorem with conditions is applied at an input where they hold.
mod Tasks
mod Calls
mod Memory
mod Tables
mod System
mod Irq
mod Boot
mod Spawn
mod Dtb
mod Main
