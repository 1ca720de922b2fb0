-- ===== src/Firmware/Tests.antt =====
-- The theorems on the firmware at concrete inputs.
pub mod Data
mod Sort
mod Guns
mod Streams
