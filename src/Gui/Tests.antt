-- ===== src/Gui/Tests.antt =====
-- The theorems on the window with concrete settings.
pub mod Data
use machine_controller.Base.{
  ℕ, zero, suc, ◌≡◌, ◌≢◌, refl, sym, ◌∙◌, Bool, true, false, List, [], ◌∷◌, length, String, Option,
  none, some, if◌then◌else◌, arith,
}
use machine_controller.Base.Int.{ℤ, pos}
use machine_controller.Gui.Tests.Data.{Json, Fields, Items, json, json-IsGuiJson}
use machine_controller.Base.{Bytes}
use machine_controller.Base.Maps.{lookup, insert}
use machine_controller.Gui.Slots.Fields.{
  encoder, start_current, start_duration, hold_current, dot_size, run_edit, ShowsActive, FieldSent,
  field_edit-sent,
}
use machine_controller.Gui.Slots.Offset.{ShowsPlan, with_offset, sensor_offset-unsent}
use machine_controller.Gui.Store.{save_gun_in}
use machine_controller.Gui.Store.Added.{Added}
use machine_controller.Gui.Store.Removed.{Removed}
use machine_controller.Gui.Window.{glue_settings}
use machine_controller.Gui.Tests.Data.{
  first_gun, second_gun, glue, config, window, line_controller, plan, obj, qt,
}
use machine_controller.Protocol.{Message}
use machine_controller.Firmware.Controller.{Controller, update_speed, fire_pass}
use machine_controller.Firmware.Messages.{handle_message, clear_rings}
use machine_controller.Firmware.Tests.Data.{integers, controller, clock, quiet}
use machine_controller.Gui.Guns.{guns_ready, save_gun-loaded}
use machine_controller.Gui.Guns.Rows.{WrittenRows, no_rows, written}
use machine_controller.Gui.Json.{value, each, edit, edit_element, edit_nth, assign}
use machine_controller.Gui.Loading.{full_row, show_gun, gun_at}
use machine_controller.Gui.Setup.{
  setup_of, setup_with, plan_guns, gun_setup, glue_row, exactly, controller_enabled,
  send_setup_to_controller,
}
use machine_controller.Gui.Setup.Sent.{
  Delivered, guns_taken, setup_of_arrives, dots_pass, offered_type-dots,
}
use machine_controller.Gui.Slots.Calibration.{calibration-shown}
use machine_controller.Gui.Slots.{
  calibration_response, sensor_offset_changed, row_value, row_values,
}
use machine_controller.Gui.Store.Kept.{OneChanged, OthersKept}
use machine_controller.Base.{sym, ◌∙◌}
use machine_controller.Gui.Window.{TableRow, nth}
use machine_controller.Protocol.{MmRow, SetupValues, create_controller_setup_message}
use machine_controller.Protocol.Tests
use machine_controller.Protocol.Tests.{message, objects, exact, unsorted, message-ReadsMessage}
use Prim.Native.String.{◌++◌ as ◌+++◌}
use Prim.Native.String

tally : ℕ → String
tally zero = ""
tally (suc n) = String.◌∷◌ "1" (tally n)

numbered : String → ℕ → String
numbered prefix n = prefix +++ tally n

abbrev no_text : Message ℤ → Option Bytes
no_text m = some (1 ∷ [])

window-ShowsActive : ShowsActive json window glue line_controller
unfolding lookup glue_settings
window-ShowsActive = record {
  idle = refl;
  named = refl;
  read = refl;
  active = refl;
  there = refl;
  is_settable = refl;
}

field_edit-sent_example :
    FieldSent json no_text glue
      (json.editor.put line_controller "startCurrent" (json.double (pos 2)))
      window
      (run_edit json qt no_text (start_current (pos 2)) window)
field_edit-sent_example =
    field_edit-sent json json-IsGuiJson qt no_text window glue line_controller
      (start_current (pos 2)) window-ShowsActive

window-ShowsPlan :
    ShowsPlan json json-IsGuiJson window glue line_controller (obj (("plan_1", plan) ∷ [])) plan
unfolding lookup
window-ShowsPlan = record {
  shown = window-ShowsActive;
  plan_named = refl;
  plans = refl;
  plan = refl;
  plan_settable = refl;
  can_write = refl;
}

sensor_offset-unsent_example :
    (g : Json) × ((glue_settings json
          (sensor_offset_changed json qt no_text (pos 30) window).settings
        ≡ some g)
      × (OneChanged json glue g "controller_1" (
            with_offset json json-IsGuiJson line_controller "plan_1"
              (obj (("plan_1", plan) ∷ []))
              plan
              (pos 30))
          × (((sensor_offset_changed json qt no_text (pos 30) window).queue
                ≡ send_setup_to_controller json no_text line_controller [])
              × OthersKept json window.settings
                  (sensor_offset_changed json qt no_text (pos 30) window).settings)))
sensor_offset-unsent_example =
    sensor_offset-unsent json json-IsGuiJson qt no_text window glue line_controller
      (obj (("plan_1", plan) ∷ [])) plan (pos 30) window-ShowsPlan

-- What is sent of the first controller.
abbrev line_setup : SetupValues ℤ
line_setup = record {
  controller_type = "line";
  encoder_resolution = pos 10;
  sensor_offset = pos 10;
  controller_enabled = true;
  guns =
      (true, record { from = pos 10; to = pos 50; space = pos 5 } ∷ [])
      ∷ (false, [])
      ∷ (false, [])
      ∷ (false, [])
      ∷ [];
  start_current = pos 1;
  start_duration_ms = pos 5;
  hold_current = pos 5;
  dot_size = "small";
}

abbrev line_message : Tests.Value
line_message = message (create_controller_setup_message line_setup)

line-Delivered :
    Delivered integers json objects unsorted exact line_controller "communication1" line_setup
      line_message controller
unfolding lookup setup_of setup_with plan_guns gun_setup glue_row each value exactly
    controller_enabled
line-Delivered = record {
  sent = refl;
  read = message-ReadsMessage (create_controller_setup_message line_setup);
  has_four = refl;
}

setup_of_arrives_example :
    let c' = handle_message integers objects unsorted line_message controller in
    (es : List (Bool × List (MmRow ℤ))) × ((plan_guns json line_controller ≡ some es)
      × ((c'.guns
            ≡ clear_rings
                (guns_taken integers json objects unsorted exact line_setup es controller.guns))
          × ((c'.config.enabled ≡ true)
              × (value json json.get_text line_controller "type" "glue" ≡ some c'.config.type))))
setup_of_arrives_example =
    setup_of_arrives integers json objects unsorted exact line_controller "communication1"
      line_setup line_message controller line-Delivered

offered_type-dots_example :
    fire_pass integers
      (λ i. quiet)
      clock
      (handle_message integers objects unsorted line_message controller)
    ≡ dots_pass integers json objects unsorted exact
        (λ i. quiet)
        (update_speed integers clock.us_speed
          (handle_message integers objects unsorted line_message controller))
unfolding lookup value
offered_type-dots_example =
    offered_type-dots integers json objects unsorted exact line_controller "communication1"
      line_setup line_message controller 1 "line" (λ i. quiet) clock line-Delivered refl refl

abbrev typed_rows : List TableRow
typed_rows = full_row "0" "1" "1" ∷ []

typed_rows-WrittenRows : WrittenRows json json-IsGuiJson qt typed_rows
typed_rows-WrittenRows = written "0" "1" "1" refl refl refl no_rows

-- The first gun of the plan, off and with these rows
abbrev typed_gun : Json
typed_gun =
    json.editor.put (json.editor.put first_gun "enabled" (json.editor.flag false)) "rows"
      (json.editor.array (row_values json qt typed_rows))

abbrev typed_plan : Json
typed_plan = json.editor.put plan "guns" (json.editor.array (typed_gun ∷ second_gun ∷ []))

save_gun-loaded_example :
    (show_gun json qt (gun_at json qt typed_plan (some 0)) window.tab
      ≡ record window.tab { gun_enabled = false; rows = typed_rows })
    × ((j : ℕ)
        → j ≢ 0
        → gun_at json qt typed_plan (some j) ≡ nth (guns_ready json json-IsGuiJson qt plan) j)
unfolding save_gun_in edit edit_element edit_nth assign row_values row_value lookup insert
save_gun-loaded_example =
    save_gun-loaded json json-IsGuiJson qt 0 false typed_rows plan typed_plan window.tab
      typed_rows-WrittenRows (omega arith) refl

calibration-shown_example :
    FieldSent json no_text glue
      (json.editor.put line_controller "encoder" (json.double (pos 95)))
      window
      (calibration_response json qt no_text (pos 95) "communication1" window)
unfolding lookup
calibration-shown_example =
    calibration-shown json json-IsGuiJson qt no_text window glue line_controller (pos 95)
      "communication1" window-ShowsActive refl refl refl
