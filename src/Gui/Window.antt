-- ===== src/Gui/Window.antt =====
-- The state of the settings window as far as its glue tab goes: the members of
-- include/gui/SettingsWindow.h, the widgets, and the configuration that it edits.
pub mod Stored
use machine_controller.Base.{
  ℕ, ◌+◌, zero, suc, Bool, true, false, List, [], ◌∷◌, ◌++◌, String, Bytes, Option, none, some,
  if◌then◌else◌,
}
use machine_controller.Base.Int.{ℤ}
use machine_controller.Base.Options.{◌>>=◌}
use machine_controller.Config.Defaults.{update_settings}
use machine_controller.Gui.Json.{GuiJson, value_or}
use machine_controller.Gui.Setup.{send_setup_to_active}
use machine_controller.Logic.Events.{Event}
use machine_controller.Protocol.{Message}
use text.Mathlib.Text.{◌==◌ as str_eq}

-- A combo box: the text and the data of each item, and the current index, none for -1.
pub record Combo : Type 0 where
  pub items : List (String × String)
  pub current : Option ℕ

-- The items of a row of the table; one is missing if the loading of the row was broken off.
pub record TableRow : Type 0 where
  pub from_item : Option String
  pub to_item : Option String
  pub space_item : Option String

pub record Tab (D : Type 0) : Type 0 where
  pub controllers : Combo
  pub plans : Combo
  pub communications : Combo
  pub types : Combo
  pub dot_sizes : Combo
  pub name : String
  pub encoder : D
  pub page_length : ℤ
  pub enabled : Bool
  pub start_current : D
  pub start_duration : D
  pub hold_current : D
  pub plan_text : String
  pub sensor_offset : ℤ
  pub gun : Option ℕ
  pub gun_enabled : Bool
  pub rows : List TableRow
  pub can_calibrate : Bool

-- `posted` counts the calls of sendControllerSetupToActiveController that wait in the queue of Qt.
-- `writable` tells whether saveToFile succeeds.
pub record Window (V D : Type 0) : Type 0 where
  pub settings : V
  pub file : V
  pub writable : Bool
  pub controller_name : String
  pub plan_name : String
  pub is_refreshing : Bool
  pub is_initializing : Bool
  pub queue : List Event
  pub posted : ℕ
  pub tab : Tab D

-- Qt: the texts of numbers, `toInt` and `toDouble`, `toLower`, `trimmed`, the comparison without
-- case, the text of an item, and what a spin box makes of a value.
pub record Qt (D : Type 0) : Type 0 where
  pub int_text : ℤ → String
  pub real_text : D → String
  pub to_int : String → ℤ
  pub to_double : String → D
  pub lower : String → String
  pub trimmed : String → String
  pub same_word : String → String → Bool
  pub encoder_shown : D → D
  pub current_shown : D → D
  pub duration_shown : D → D
  pub page_shown : ℤ → ℤ
  pub offset_shown : ℤ → ℤ
  pub same_real : D → D → Bool
  pub quotient : ℤ → ℤ → D

abbrev pub nth : {A : Type 0} → List A → ℕ → Option A
nth [] i = none
nth (a ∷ rest) zero = some a
nth (a ∷ rest) (suc i) = nth rest i

-- The first item that a test holds of, from place `i` on.
unfoldable pub find_from : (String × String → Bool) → ℕ → List (String × String) → Option ℕ
find_from test i [] = none
find_from test i (item ∷ rest) = if test item then some i else find_from test (suc i) rest

abbrev pub find_data : String → Combo → Option ℕ
find_data key c = find_from (λ item. str_eq item.1 key) 0 c.items

abbrev pub find_text : String → Combo → Option ℕ
find_text text c = find_from (λ item. str_eq item.0 text) 0 c.items

abbrev pub current_item : Combo → Option (String × String)
current_item c = c.current >>= nth c.items

abbrev pub text_of : Option (String × String) → String
text_of none = ""
text_of (some item) = item.0

abbrev pub data_of : Option (String × String) → String
data_of none = ""
data_of (some item) = item.1

abbrev pub current_text : Combo → String
current_text c = text_of (current_item c)

abbrev pub cleared : Combo
cleared = record { items = []; current = none }

abbrev pub first_index : List (String × String) → Option ℕ → Option ℕ
first_index [] current = some 0
first_index (item ∷ rest) current = current

-- The first item that is added becomes the current one.
unfoldable pub add_item : String → String → Combo → Combo
add_item text key c = record {
  items = c.items ++ ((text, key) ∷ []);
  current = first_index c.items c.current;
}

-- `if (index >= 0) setCurrentIndex(index);`
abbrev pub select_found : Option ℕ → Combo → Combo
select_found none c = c
select_found (some i) c = record c { current = some i }

module _ {D : Type 0} (J : GuiJson D) where
  open J use {editor}
  open editor use {Value, object, member, is_object}

  -- `getGlueSettings`
  unfoldable pub glue_settings : Value → Option Value
  glue_settings config =
      if is_object config then some (value_or object (member config "glue")) else none

  unfoldable pub save_to_file : Window Value D → Window Value D
  save_to_file w = record w { file = if w.writable then w.settings else w.file }

  unfoldable pub update_glue : Value → Window Value D → Window Value D
  update_glue glue w = record w { settings = update_settings editor "glue" glue w.settings }

  -- A change of the glue settings; `none` if they are not changed.
  unfoldable pub updated : (Value → Option Value) → Window Value D → Option (Window Value D)
  updated change w = glue_settings w.settings >>= change >>= λ glue. some (update_glue glue w)

  -- A change that is saved.
  unfoldable pub stored : (Value → Option Value) → Window Value D → Option (Window Value D)
  stored change w = updated change w >>= λ w'. some (save_to_file w')

  abbrev pub send_from : (Message D → Option Bytes) → Option Value → List Event → List Event
  send_from dump none queue = queue
  send_from dump (some glue) queue = send_setup_to_active J dump glue queue

  -- `sendControllerSetupToActiveController`
  unfoldable pub send_active : (Message D → Option Bytes) → Window Value D → Window Value D
  send_active dump w =
      if w.is_refreshing
      then w
      else record w { queue = send_from dump (glue_settings w.settings) w.queue }

  -- The waiting calls are made.
  unfoldable pub send_times : (Message D → Option Bytes) → ℕ → Window Value D → Window Value D
  send_times dump zero w = w
  send_times dump (suc n) w = send_times dump n (send_active dump w)

  unfoldable pub run_posted : (Message D → Option Bytes) → Window Value D → Window Value D
  run_posted dump w = send_times dump w.posted (record w { posted = 0 })
