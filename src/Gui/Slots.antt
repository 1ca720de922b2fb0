-- ===== src/Gui/Slots.antt =====
-- The slots of the glue tab of src/gui/SettingsWindow.cpp. The widget that the user changes is set first,
-- as Qt does it. The signal glueGunsChanged to the main window is left out.
pub mod Fields
pub mod Calibration
pub mod Offset
use machine_controller.Base.{
  ℕ, ◌+◌, zero, suc, Bool, true, false, List, [], ◌∷◌, ◌++◌, String, Bytes, Option, none, some,
  if◌then◌else◌, ◌&&◌, ◌||◌,
}
use machine_controller.Base.Int.{ℤ, pos}
use machine_controller.Base.Options.{◌>>=◌}
use machine_controller.Config.Defaults.{has}
use machine_controller.EventQueue
use machine_controller.Gui.Json.{GuiJson, value_or, object_of, is_text}
use machine_controller.Gui.Loading.{full_row, or_same, load_gun}
use machine_controller.Gui.Filling.{fill_glue_tab, controller_in}
use machine_controller.Gui.Store.{
  ControllerFields, save_active_controller, save_active_plan, save_field, save_controller, has_plan,
  save_plan_field, save_gun,
}
use machine_controller.Gui.Window.{
  Combo, TableRow, Tab, Window, Qt, nth, current_item, current_text, data_of, glue_settings, stored,
  send_active,
}
use machine_controller.Logic.Events.{Event}
use machine_controller.Protocol.{Message, create_calibrate_message, dumped, send_message}
use text.Mathlib.Text.{◌==◌ as str_eq}

module _ {D : Type 0} (J : GuiJson D) (Q : Qt D) where
  open J use {editor, ratio, double}
  open editor use {Value, object, member, text, int, flag}
  open Q use {int_text, real_text, to_int, to_double, lower, trimmed}

  -- The slots return while the tab is filled, and with no controller.
  abbrev pub when_selected : (Window Value D → Window Value D) → Window Value D → Window Value D
  when_selected slot w = if w.is_refreshing || str_eq w.controller_name "" then w else slot w

  abbrev pub when_plan : (Window Value D → Window Value D) → Window Value D → Window Value D
  when_plan slot = when_selected (λ w. if str_eq w.plan_name "" then w else slot w)

  unfoldable pub save_active_controller_slot : Window Value D → Window Value D
  save_active_controller_slot w = elim w.tab.controllers.current [
    | none ↦ w
    | some i ↦
        or_same w (stored J (save_active_controller J (data_of (current_item w.tab.controllers))) w)
  ]

  -- `saveActivePlanForController`
  unfoldable pub save_active_plan_slot : Window Value D → Window Value D
  save_active_plan_slot w =
      if str_eq w.controller_name "" || str_eq w.plan_name ""
      then w
      else or_same w (stored J (save_active_plan J w.controller_name w.plan_name) w)

  -- `onGlueControllerSelectorChanged`, when the user selects
  unfoldable pub controller_selected : Option ℕ → Window Value D → Window Value D
  controller_selected i w =
      let w1 : Window Value D = record w {
        tab = record w.tab { controllers = record w.tab.controllers { current = i } };
      } in
      if str_eq w1.controller_name ""
      then w1
      else fill_glue_tab J Q (save_active_controller_slot w1)

  abbrev pub shown_fields : Tab D → ControllerFields D
  shown_fields tab = record {
    name = tab.name;
    communication = current_text tab.communications;
    type = lower (current_text tab.types);
    encoder = tab.encoder;
    page_length = tab.page_length;
    enabled = tab.enabled;
  }

  abbrev pub cell : Option String → String
  cell none = ""
  cell (some s) = s

  -- A row with all its items is saved.
  unfoldable pub row_value : TableRow → List Value
  row_value row =
      if has row.from_item && has row.to_item && has row.space_item
      then object_of J
          (("from", int (to_int (cell row.from_item)))
            ∷ ("to", int (to_int (cell row.to_item)))
            ∷ ("space", double (to_double (cell row.space_item)))
            ∷ [])
          object
        ∷ []
      else []

  unfoldable pub row_values : List TableRow → List Value
  row_values [] = []
  row_values (row ∷ rows) = row_value row ++ row_values rows

  module _ (dump : Message D → Option Bytes) where
    -- A change that is sent to the active controller, if it was stored.
    abbrev pub and_send : Window Value D → Option (Window Value D) → Window Value D
    and_send w none = w
    and_send w (some w') = send_active J dump w'

    -- `saveCurrentGlueControllerSettings`
    unfoldable pub save_controller_slot : Window Value D → Window Value D
    save_controller_slot = when_selected λ w.
        elim (stored J (save_controller J w.controller_name (shown_fields w.tab)) w) [
          | none ↦ w
          | some w' ↦ send_active J dump (fill_glue_tab J Q w')
        ]

    unfoldable pub name_edited : String → Window Value D → Window Value D
    name_edited name w = save_controller_slot (record w { tab = record w.tab { name = name } })

    unfoldable pub communication_selected : ℕ → Window Value D → Window Value D
    communication_selected i w = save_controller_slot (record w {
      tab = record w.tab { communications = record w.tab.communications { current = some i } };
    })

    unfoldable pub type_selected : ℕ → Window Value D → Window Value D
    type_selected i w =
        save_controller_slot
          (record w { tab = record w.tab { types = record w.tab.types { current = some i } } })

    abbrev pub field_slot : String → Value → Window Value D → Window Value D
    field_slot key x =
        when_selected λ w. and_send w (stored J (save_field J w.controller_name key x) w)

    unfoldable pub encoder_changed : D → Window Value D → Window Value D
    encoder_changed x w =
        field_slot "encoder" (double x) (record w { tab = record w.tab { encoder = x } })

    unfoldable pub start_current_changed : D → Window Value D → Window Value D
    start_current_changed x w =
        field_slot "startCurrent" (double x) (record w { tab = record w.tab { start_current = x } })

    unfoldable pub start_duration_changed : D → Window Value D → Window Value D
    start_duration_changed x w =
        field_slot "startDurationMS" (double x)
          (record w { tab = record w.tab { start_duration = x } })

    unfoldable pub hold_current_changed : D → Window Value D → Window Value D
    hold_current_changed x w =
        field_slot "holdCurrent" (double x) (record w { tab = record w.tab { hold_current = x } })

    unfoldable pub dot_size_selected : ℕ → Window Value D → Window Value D
    dot_size_selected i w =
        let sizes : Combo = record w.tab.dot_sizes { current = some i } in
        field_slot "dotSize" (text (current_text sizes))
          (record w { tab = record w.tab { dot_sizes = sizes } })

    -- The page length is stored, and not sent.
    unfoldable pub page_length_changed : ℤ → Window Value D → Window Value D
    page_length_changed n w =
        when_selected
          (λ v. or_same v (stored J (save_field J v.controller_name "pageLength" (int n)) v))
          (record w { tab = record w.tab { page_length = n } })

    -- The message is sent later, from Qt's queue.
    unfoldable pub enabled_changed : Bool → Window Value D → Window Value D
    enabled_changed on w =
        when_selected
          (λ v. elim (stored J (save_field J v.controller_name "enabled" (flag on)) v) [
            | none ↦ v
            | some v' ↦ record v' { posted = v'.posted + 1 }
          ])
          (record w { tab = record w.tab { enabled = on } })

    unfoldable pub calibrate_clicked : Window Value D → Window Value D
    calibrate_clicked = when_selected λ w.
        let port : String = current_text w.tab.communications in
        if str_eq port ""
        then w
        else elim (dumped (dump (create_calibrate_message w.tab.page_length))) [
          | [] ↦ w
          | b ∷ bs ↦ record w {
            queue = send_message w.queue port (b ∷ bs);
            tab = record w.tab { can_calibrate = false };
          }
        ]

    -- The box is set, which its own slot sees if the value is another.
    abbrev pub set_encoder : D → Window Value D → Window Value D
    set_encoder x w =
        let shown : D = Q.encoder_shown x in
        if Q.same_real shown w.tab.encoder then w else encoder_changed shown w

    -- `onGlueEncoderCalibrationResponse`
    unfoldable pub calibration_response : ℤ → String → Window Value D → Window Value D
    calibration_response pulses name w =
        if w.is_refreshing || str_eq name ""
        then w
        else (let x : D = Q.quotient pulses w.tab.page_length in
            let w1 : Window Value D = set_encoder x w in
            let w2 : Window Value D =
              or_same w1 (stored J (save_field J name "encoder" (double x)) w1) in
            record w2 { tab = record w2.tab { can_calibrate = true } })

    -- The reload, and the message with the new plan, if the plan is another one.
    unfoldable pub plan_selected : ℕ → Window Value D → Window Value D
    plan_selected i w =
        let w1 : Window Value D = record w {
          tab = record w.tab { plans = record w.tab.plans { current = some i } };
        } in
        when_selected
          (λ v. elim (nth v.tab.plans.items i) [
            | none ↦ v
            | some item ↦
                if str_eq item.1 v.plan_name
                then v
                else send_active J dump
                    (fill_glue_tab J Q (save_active_plan_slot (record v { plan_name = item.1 })))
          ])
          w1

    -- A change of the plan is sent only if the file could be written.
    abbrev pub send_if_saved : Window Value D → Window Value D
    send_if_saved w = if w.writable then send_active J dump w else w

    unfoldable pub sensor_offset_changed : ℤ → Window Value D → Window Value D
    sensor_offset_changed n w =
        when_plan
          (λ v.
            elim (stored J (save_plan_field J v.controller_name v.plan_name "sensorOffset" (int n))
              v) [ none ↦ v | some v' ↦ send_if_saved v' ])
          (record w { tab = record w.tab { sensor_offset = n } })

    -- `saveCurrentGunSettings`; the selector has four items.
    unfoldable pub save_gun_slot : Window Value D → Window Value D
    save_gun_slot w =
        if str_eq w.controller_name "" || str_eq w.plan_name "" then w else elim w.tab.gun [
          | none ↦ w
          | some i ↦ and_send w (
              stored J
                (save_gun J w.controller_name w.plan_name i w.tab.gun_enabled
                  (row_values w.tab.rows))
                w)
        ]

    unfoldable pub row_edited : List TableRow → Window Value D → Window Value D
    row_edited rows w = when_plan save_gun_slot (record w { tab = record w.tab { rows = rows } })

    abbrev pub if_both_named : (Window Value D → Window Value D) → Window Value D → Window Value D
    if_both_named slot w =
        if str_eq w.controller_name "" || str_eq w.plan_name "" then w else slot w

    unfoldable pub row_added : Window Value D → Window Value D
    row_added = if_both_named λ w. save_gun_slot (record w {
      tab = record w.tab {
        rows =
            w.tab.rows
            ++ (full_row (int_text (pos 0)) (int_text (pos 100)) (real_text (ratio 10 1)) ∷ []);
      };
    })

    abbrev pub remove_nth : ℕ → List TableRow → List TableRow
    remove_nth i [] = []
    remove_nth zero (row ∷ rows) = rows
    remove_nth (suc i) (row ∷ rows) = row ∷ remove_nth i rows

    -- Nothing happens with no row selected.
    unfoldable pub row_removed : Option ℕ → Window Value D → Window Value D
    row_removed none w = w
    row_removed (some i) w =
        if_both_named
          (λ v.
            if has (nth v.tab.rows i)
            then save_gun_slot (record v { tab = record v.tab { rows = remove_nth i v.tab.rows } })
            else v)
          w

    unfoldable pub gun_enabled_changed : Bool → Window Value D → Window Value D
    gun_enabled_changed on w =
        let w1 : Window Value D = record w { tab = record w.tab { gun_enabled = on } } in
        if w1.is_refreshing then w1 else save_gun_slot w1

  unfoldable pub gun_selected : ℕ → Window Value D → Window Value D
  gun_selected i w =
      let w1 : Window Value D = record w { tab = record w.tab { gun = some i } } in
      if w1.is_refreshing then w1 else load_gun J Q (some i) w1
