-- ===== src/Rs232.antt =====
-- The serial ports: include/communication/RS232Communication.h and
-- src/communication/RS232Communication.cpp.
pub mod Settings
pub mod Framing
pub mod Port
pub mod Delivery
mod Tests
pub mod Scan
