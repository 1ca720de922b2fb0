-- ===== src/Firmware.antt =====
-- The glue controller's firmware, arduino/GlueController/GlueController.cpp and GlueController.h,
-- built for the Uno R4: a 12-bit ADC, a 32-bit `int` and a 32-bit `unsigned long`.
pub mod Platform
pub mod State
pub mod Ring
pub mod Encoder
pub mod Rows
pub mod Dots
pub mod Lines
pub mod TestMode
pub mod Zones
pub mod Serial
pub mod Controller
pub mod Messages
pub mod Loop
pub mod Tests
