-- ===== src/Gui/Actions.antt =====
-- What the user, the answer to a calibration and the queue of Qt do in the glue tab: the slots that the
-- window of src/gui/SettingsWindow.cpp connects to its widgets, by their names or in the constructor.
use machine_controller.Base.{ℕ, Bool, List, [], ◌∷◌, String, Bytes, Option, some}
use machine_controller.Base.Int.{ℤ}
use machine_controller.Gui.Json.{GuiJson}
use machine_controller.Gui.Slots.{
  controller_selected, name_edited, communication_selected, type_selected, encoder_changed,
  start_current_changed, start_duration_changed, hold_current_changed, dot_size_selected,
  page_length_changed, enabled_changed, calibrate_clicked, calibration_response, plan_selected,
  sensor_offset_changed, row_edited, row_added, row_removed, gun_enabled_changed, gun_selected,
}
use machine_controller.Gui.Structure.{
  remove_controller_clicked, add_controller_clicked, add_plan_clicked, remove_plan_clicked,
  plan_name_edited,
}
use machine_controller.Gui.Window.{TableRow, Window, Qt, run_posted}
use machine_controller.Protocol.{Message}

pub data TabAction (D : Type 0) : Type 0 where
  pick_controller : ℕ → TabAction D
  click_add_controller : TabAction D
  click_remove_controller : TabAction D
  edit_name : String → TabAction D
  select_communication : ℕ → TabAction D
  select_type : ℕ → TabAction D
  change_encoder : D → TabAction D
  change_page_length : ℤ → TabAction D
  change_enabled : Bool → TabAction D
  change_start_current : D → TabAction D
  change_start_duration : D → TabAction D
  change_hold_current : D → TabAction D
  select_dot_size : ℕ → TabAction D
  calibrate : TabAction D
  calibrated : ℤ → String → TabAction D
  pick_plan : ℕ → TabAction D
  click_add_plan : List ℕ → TabAction D
  click_remove_plan : TabAction D
  edit_plan_name : String → TabAction D
  change_sensor_offset : ℤ → TabAction D
  select_gun : ℕ → TabAction D
  change_gun_enabled : Bool → TabAction D
  edit_rows : List TableRow → TabAction D
  click_add_row : TabAction D
  click_remove_row : Option ℕ → TabAction D
  -- The calls that wait in Qt's queue.
  run_waiting : TabAction D

module _ {D : Type 0} (J : GuiJson D) (Q : Qt D) where
  module _ (dump : Message D → Option Bytes) (numbered : String → ℕ → String) where
    unfoldable pub act_on_tab : TabAction D → Window J.editor.Value D → Window J.editor.Value D
    act_on_tab (pick_controller i) w = controller_selected J Q (some i) w
    act_on_tab click_add_controller w = add_controller_clicked J Q dump numbered w
    act_on_tab click_remove_controller w = remove_controller_clicked J Q w
    act_on_tab (edit_name name) w = name_edited J Q dump name w
    act_on_tab (select_communication i) w = communication_selected J Q dump i w
    act_on_tab (select_type i) w = type_selected J Q dump i w
    act_on_tab (change_encoder x) w = encoder_changed J Q dump x w
    act_on_tab (change_page_length n) w = page_length_changed J Q dump n w
    act_on_tab (change_enabled on) w = enabled_changed J Q dump on w
    act_on_tab (change_start_current x) w = start_current_changed J Q dump x w
    act_on_tab (change_start_duration x) w = start_duration_changed J Q dump x w
    act_on_tab (change_hold_current x) w = hold_current_changed J Q dump x w
    act_on_tab (select_dot_size i) w = dot_size_selected J Q dump i w
    act_on_tab calibrate w = calibrate_clicked J Q dump w
    act_on_tab (calibrated pulses name) w = calibration_response J Q dump pulses name w
    act_on_tab (pick_plan i) w = plan_selected J Q dump i w
    act_on_tab (click_add_plan draws) w = add_plan_clicked J Q dump numbered draws w
    act_on_tab click_remove_plan w = remove_plan_clicked J Q dump numbered w
    act_on_tab (edit_plan_name typed) w = plan_name_edited J Q dump numbered typed w
    act_on_tab (change_sensor_offset n) w = sensor_offset_changed J Q dump n w
    act_on_tab (select_gun i) w = gun_selected J Q i w
    act_on_tab (change_gun_enabled on) w = gun_enabled_changed J Q dump on w
    act_on_tab (edit_rows rows) w = row_edited J Q dump rows w
    act_on_tab click_add_row w = row_added J Q dump w
    act_on_tab (click_remove_row i) w = row_removed J Q dump i w
    act_on_tab run_waiting w = run_posted J dump w

    unfoldable pub run_actions :
        List (TabAction D) → Window J.editor.Value D → Window J.editor.Value D
    run_actions [] w = w
    run_actions (a ∷ rest) w = run_actions rest (act_on_tab a w)
