-- ===== src/Tests.antt =====
-- Runs on a simulated dongle, and the theorems at concrete inputs.
mod Bench
mod Pair
mod Attached
mod Device
mod Application
mod Keeper
mod Bootloader
mod FlashTool
mod Upgrade
mod DebugTool
