-- ===== src/Gui/Sound.antt =====
-- Sound states of the glue tab of src/gui/SettingsWindow.cpp, slot by slot.
pub mod Keys
pub mod Changes
pub mod Windows
pub mod Filled
pub mod Boxes
pub mod Fills
pub mod Edits
pub mod Changed
pub mod Structured
pub mod Plans
pub mod Actions
