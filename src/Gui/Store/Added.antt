-- ===== src/Gui/Store/Added.antt =====
-- The controller that the add button adds.
use machine_controller.Base.{ℕ, ◌<◌, ◌≤◌, ◌≡◌, true, false, String, none, some, if◌then◌else◌}
use machine_controller.Config.Defaults.{has}
use machine_controller.Gui.Json.{GuiJson, value_or}
use machine_controller.Gui.Store.{new_controller}
use machine_controller.Gui.Store.Kept.{controller_of}
use text.Mathlib.Text.{◌==◌ as str_eq}

-- Two numbers give two keys.
abbrev pub IsNumbering : (String → ℕ → String) → Type 0
IsNumbering numbered = (prefix : String) (m n : ℕ) → numbered prefix m ≡ numbered prefix n → m ≡ n

module _ {D : Type 0} (J : GuiJson D) (numbered : String → ℕ → String) where
  open J use {editor, entries}
  open editor use {Value, object, member, is_object, settable, put, text}

  -- The settings have an object of controllers, or none yet.
  pub record TakesControllers (glue : Value) : Type 0 where
    pub is_glue : is_object glue ≡ true
    pub is_controllers : is_object (value_or object (member glue "controllers")) ≡ true

  -- The second settings have a new controller of the least free number, which is active, and else what
  -- the first have.
  pub record Added (glue glue' : Value) (communication : String) (n : ℕ) : Type 0 where
    pub unused : controller_of J glue (numbered "controller_" n) ≡ none
    pub least :
        (m : ℕ) → 1 ≤ m → m < n → has (controller_of J glue (numbered "controller_" m)) ≡ true
    pub controllers :
        (other : String)
        → controller_of J glue' other ≡ (
            if str_eq (numbered "controller_" n) other
            then some (new_controller J communication)
            else controller_of J glue other)
    pub active : member glue' "activeController" ≡ some (text (numbered "controller_" n))
    pub others :
        (key : String)
        → str_eq "controllers" key ≡ false
        → str_eq "activeController" key ≡ false
        → member glue' key ≡ member glue key
