-- ===== src/MachineCore.antt =====
-- The machine core: include/machine/MachineCore.h and src/machine/DefaultMachineCore.cpp.
pub mod Types
pub mod Extract
pub mod State
pub mod Store
pub mod Step
pub mod Sequence
pub mod Shift
pub mod Invariant
pub mod Throws
mod Tests
