-- ===== src/Gui/Sound/Changed.antt =====
-- The slots of the fields of the tab, of its rows and its selectors, on sound windows.
use machine_controller.Base.{
  ℕ, ◌+◌, refl, Bool, true, false, ◌++◌, ◌||◌, List, [], ◌∷◌, String, Bytes, Option, none, some,
  if_cases, if◌then◌else◌,
}
use machine_controller.Base.Int.{ℤ, pos}
use machine_controller.Config.Defaults.{has}
use machine_controller.Gui.Filling.{fill_glue_tab}
use machine_controller.Gui.Json.{GuiJson, IsGuiJson}
use machine_controller.Gui.Loading.{full_row, or_same}
use machine_controller.Gui.Slots.{
  encoder_changed, page_length_changed, save_active_plan_slot, enabled_changed, calibrate_clicked,
  set_encoder, calibration_response, plan_selected, send_if_saved, sensor_offset_changed,
  row_edited, row_added, remove_nth, row_removed, gun_enabled_changed,
}
use machine_controller.Gui.Sound.Changes.{save_field-Keeps, save_plan_field-Keeps}
use machine_controller.Gui.Sound.Edits.{
  alike, send_active-IsSound, filled-IsSound, selected-IsSound, when_plan-IsSound, or_same-IsSound,
  after-IsSound, save_active_plan-IsSound, field-IsSound, save_gun-IsSound,
}
use machine_controller.Gui.Sound.Fills.{IsSound}
use machine_controller.Gui.Store.{save_field, save_plan_field}
use machine_controller.Gui.Window.{TableRow, Window, Qt, nth, current_text, stored, send_active}
use machine_controller.Protocol.{Message, create_calibrate_message, dumped, send_message}
use text.Mathlib.Text.{◌==◌ as str_eq}

module _ {D : Type 0} (J : GuiJson D) (laws : IsGuiJson J) (Q : Qt D)
    (dump : Message D → Option Bytes) where
  open J use {editor, double, ratio}
  open editor use {Value, int, flag}

  pub encoder-IsSound :
      (x : D) (w : Window Value D) → IsSound J w → IsSound J (encoder_changed J Q dump x w)
  unfolding encoder_changed
  encoder-IsSound x w s =
      let w1 : Window Value D = record w { tab = record w.tab { encoder = x } } in
      field-IsSound J laws Q dump "encoder" (double x) w1 (alike J laws Q w w1 refl refl s)

  pub page_length-IsSound :
      (n : ℤ) (w : Window Value D) → IsSound J w → IsSound J (page_length_changed J Q dump n w)
  unfolding page_length_changed
  page_length-IsSound n w s =
      let w1 : Window Value D = record w { tab = record w.tab { page_length = n } } in
      selected-IsSound J laws Q w1 _
        (or_same-IsSound J laws Q (save_field J w.controller_name "pageLength" (int n)) w1
          (λ g g' r. save_field-Keeps J laws w.controller_name "pageLength" (int n) g g'))
        (alike J laws Q w w1 refl refl s)

  pub enabled-IsSound :
      (on : Bool) (w : Window Value D) → IsSound J w → IsSound J (enabled_changed J Q dump on w)
  unfolding enabled_changed
  enabled-IsSound on w s =
      let w1 : Window Value D = record w { tab = record w.tab { enabled = on } } in
      selected-IsSound J laws Q w1 _
        (after-IsSound J laws Q (save_field J w.controller_name "enabled" (flag on)) w1
          (λ v. record v { posted = v.posted + 1 })
          (save_field-Keeps J laws w.controller_name "enabled" (flag on))
          (λ v t. alike J laws Q v _ refl refl t))
        (alike J laws Q w w1 refl refl s)

  pub calibrate-IsSound :
      (w : Window Value D) → IsSound J w → IsSound J (calibrate_clicked J Q dump w)
  unfolding calibrate_clicked
  calibrate-IsSound w s =
      selected-IsSound J laws Q w _
        (λ t.
          if_cases (IsSound J) (str_eq (current_text w.tab.communications) "") (λ _. t)
            (λ _. split (dumped (dump (create_calibrate_message w.tab.page_length)))))
        s
    where
      split :
          (m : Bytes)
          → IsSound J (elim m [
            | [] ↦ w
            | b ∷ bs ↦ record w {
              queue = send_message w.queue (current_text w.tab.communications) (b ∷ bs);
              tab = record w.tab { can_calibrate = false };
            }
          ])
      split [] = s
      split (b ∷ bs) = alike J laws Q w _ refl refl s

  pub calibrated-IsSound :
      (pulses : ℤ) (name : String) (w : Window Value D)
      → IsSound J w
      → IsSound J (calibration_response J Q dump pulses name w)
  unfolding calibration_response
  calibrated-IsSound pulses name w s =
      let x : D = Q.quotient pulses w.tab.page_length in
      let w1 : Window Value D = set_encoder J Q dump x w in
      let s1 : IsSound J w1 =
        if_cases (IsSound J) (Q.same_real (Q.encoder_shown x) w.tab.encoder) (λ _. s)
          (λ _. encoder-IsSound (Q.encoder_shown x) w s) in
      if_cases (IsSound J) (w.is_refreshing || str_eq name "") (λ _. s)
        (λ _.
          let w2 : Window Value D =
            or_same w1 (stored J (save_field J name "encoder" (double x)) w1) in
          alike J laws Q w2 (record w2 { tab = record w2.tab { can_calibrate = true } }) refl refl
            (or_same-IsSound J laws Q (save_field J name "encoder" (double x)) w1
              (λ g g' r. save_field-Keeps J laws name "encoder" (double x) g g') s1))

  pub plan-IsSound :
      (i : ℕ) (w : Window Value D) → IsSound J w → IsSound J (plan_selected J Q dump i w)
  unfolding plan_selected
  plan-IsSound i w s =
      selected-IsSound J laws Q w1 _ (split (nth w1.tab.plans.items i))
        (alike J laws Q w w1 refl refl s)
    where
      w1 : Window Value D
      w1 = record w { tab = record w.tab { plans = record w.tab.plans { current = some i } } }

      split :
          (m : Option (String × String))
          → IsSound J w1
          → IsSound J (elim m [
            | none ↦ w1
            | some item ↦
                if str_eq item.1 w1.plan_name
                then w1
                else send_active J dump (
                    fill_glue_tab J Q
                      (save_active_plan_slot J Q (record w1 { plan_name = item.1 })))
          ])
      split none t = t
      split (some item) t =
          if_cases (IsSound J) (str_eq item.1 w1.plan_name) (λ _. t)
            (λ _.
              let w2 : Window Value D = record w1 { plan_name = item.1 } in
              send_active-IsSound J laws Q dump (fill_glue_tab J Q (save_active_plan_slot J Q w2)) (
                filled-IsSound J laws Q (save_active_plan_slot J Q w2)
                  (save_active_plan-IsSound J laws Q w2 (alike J laws Q w1 w2 refl refl t))))

  pub sensor_offset-IsSound :
      (n : ℤ) (w : Window Value D) → IsSound J w → IsSound J (sensor_offset_changed J Q dump n w)
  unfolding sensor_offset_changed
  sensor_offset-IsSound n w s =
      let w1 : Window Value D = record w { tab = record w.tab { sensor_offset = n } } in
      when_plan-IsSound J laws Q w1 _
        (after-IsSound J laws Q
          (save_plan_field J w.controller_name w.plan_name "sensorOffset" (int n)) w1
          (send_if_saved J Q dump)
          (save_plan_field-Keeps J laws w.controller_name w.plan_name "sensorOffset" (int n))
          (λ v t.
            if_cases (IsSound J) v.writable (λ _. send_active-IsSound J laws Q dump v t) (λ _. t)))
        (alike J laws Q w w1 refl refl s)

  pub row_edited-IsSound :
      (rows : List TableRow) (w : Window Value D)
      → IsSound J w
      → IsSound J (row_edited J Q dump rows w)
  unfolding row_edited
  row_edited-IsSound rows w s =
      let w1 : Window Value D = record w { tab = record w.tab { rows = rows } } in
      when_plan-IsSound J laws Q w1 _ (save_gun-IsSound J laws Q dump w1)
        (alike J laws Q w w1 refl refl s)

  pub row_added-IsSound : (w : Window Value D) → IsSound J w → IsSound J (row_added J Q dump w)
  unfolding row_added
  row_added-IsSound w s =
      if_cases (IsSound J) (str_eq w.controller_name "" || str_eq w.plan_name "") (λ _. s)
        (λ _.
          let w1 : Window Value D = record w {
            tab = record w.tab {
              rows =
                  w.tab.rows
                  ++ (full_row (Q.int_text (pos 0)) (Q.int_text (pos 100))
                        (Q.real_text (ratio 10 1))
                      ∷ []);
            };
          } in
          save_gun-IsSound J laws Q dump w1 (alike J laws Q w w1 refl refl s))

  pub row_removed-IsSound :
      (i : Option ℕ) (w : Window Value D) → IsSound J w → IsSound J (row_removed J Q dump i w)
  unfolding row_removed
  row_removed-IsSound none w s = s
  row_removed-IsSound (some i) w s =
      if_cases (IsSound J) (str_eq w.controller_name "" || str_eq w.plan_name "") (λ _. s)
        (λ _.
          if_cases (IsSound J) (has (nth w.tab.rows i))
            (λ _.
              let w1 : Window Value D = record w {
                tab = record w.tab { rows = remove_nth J Q dump i w.tab.rows };
              } in
              save_gun-IsSound J laws Q dump w1 (alike J laws Q w w1 refl refl s))
            (λ _. s))

  pub gun_enabled-IsSound :
      (on : Bool) (w : Window Value D) → IsSound J w → IsSound J (gun_enabled_changed J Q dump on w)
  unfolding gun_enabled_changed
  gun_enabled-IsSound on w s =
      let w1 : Window Value D = record w { tab = record w.tab { gun_enabled = on } } in
      let s1 : IsSound J w1 = alike J laws Q w w1 refl refl s in
      if_cases (IsSound J) w.is_refreshing (λ _. s1) (λ _. save_gun-IsSound J laws Q dump w1 s1)
