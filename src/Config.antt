-- ===== src/Config.antt =====
-- The configuration: include/Config.h and src/Config.cpp. Its JSON library is outside of the repository's
-- code: Tree and Defaults name the calls that the class makes and the laws of the library that the
-- proofs use.
pub mod Tree
pub mod Pins
pub mod Getters
pub mod Directed
pub mod Valid
pub mod Loads
pub mod Defaults
pub mod Kept
pub mod Filled
pub mod Tests
