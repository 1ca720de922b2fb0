-- ===== src/IoCard.antt =====
-- The digital I/O card: include/io/PCI7248IO.h and src/io/windows/PCI7248IO.cpp.
pub mod Ports
pub mod Inputs
pub mod Edges
pub mod Outputs
pub mod Levels
pub mod Start
pub mod Life
pub mod Outcome
pub mod AllOff
mod Tests
