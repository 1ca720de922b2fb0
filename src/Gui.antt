-- ===== src/Gui.antt =====
-- The settings window: src/gui/SettingsWindow.cpp.
pub mod Json
pub mod Setup
pub mod Store
pub mod Window
pub mod Loading
pub mod Filling
pub mod Slots
pub mod Structure
pub mod Guns
pub mod Actions
pub mod Sound
mod Tests
