-- ===== src/Tests.antt =====
-- The theorems at concrete inputs.
mod Heap
mod Frames
mod Strings
mod Devices
mod Output
mod Calls
mod Start
mod Commands
mod Turns
