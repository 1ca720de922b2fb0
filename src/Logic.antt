-- ===== src/Logic.antt =====
-- The logic thread: include/Logic.h, src/Logic.cpp, and what it uses of Event.h and Timer.h.
pub mod State
pub mod Cycle
pub mod Setup
pub mod References
pub mod Events
pub mod Invariant
pub mod Running
pub mod EventLoop
pub mod Start
pub mod Started
mod Tests
