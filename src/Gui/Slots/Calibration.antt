-- ===== src/Gui/Slots/Calibration.antt =====
-- The answer of a calibration. The logic thread passes the name of the port on, where the slot looks for
-- a controller's key.
use machine_controller.Base.{
  ◌≡◌, sym, ap, ◌∙◌, true, false, ◌||◌, String, Bytes, Option, none, some, if_cases, if◌then◌else◌,
  arith,
}
use machine_controller.Base.Int.{ℤ}
use machine_controller.Config.Defaults.{has}
use machine_controller.Gui.Json.{GuiJson, IsGuiJson, assign, edit}
use machine_controller.Gui.Loading.{or_same}
use machine_controller.Gui.Slots.{encoder_changed, calibration_response}
use machine_controller.Gui.Slots.Fields.{ShowsActive, FieldSent, field_edit-sent, encoder}
use machine_controller.Gui.Store.{save_field}
use machine_controller.Gui.Store.Kept.{controller_of, OneChanged}
use machine_controller.Gui.Window.{Window, Qt, glue_settings, stored}
use machine_controller.Protocol.{Message}
use machine_controller.Gui.Window.Stored.{stored-none}
use mathlib.Core.Path.{subst}
use text.Mathlib.Text.{◌==◌ as str_eq}
use text.Mathlib.TextEquality.{eq_iff}

module _ {D : Type 0} (J : GuiJson D) (laws : IsGuiJson J) (Q : Qt D)
    (dump : Message D → Option Bytes) where
  open J use {editor, double}
  open editor use {Value, member, put}
  open Q use {encoder_shown, same_real, quotient}

  unknown_key-unstored :
      (w : Window Value D) (glue : Value) (name key : String) (x : Value)
      → glue_settings J w.settings ≡ some glue
      → controller_of J glue name ≡ none
      → stored J (save_field J name key x) w ≡ none
  unfolding save_field
  unknown_key-unstored w glue name key x r h =
      stored-none J laws (save_field J name key x) w glue r (
        ap (λ b. if b then edit J "controllers" (edit J name (assign J key x)) glue else none)
          (ap has h))

  abbrev pub resolution : ℤ → Window Value D → D
  resolution pulses w = encoder_shown (quotient pulses w.tab.page_length)

  abbrev rest : D → String → Window Value D → Window Value D
  rest x port v =
      let v' : Window Value D = or_same v (stored J (save_field J port "encoder" (double x)) v) in
      record v' { tab = record v'.tab { can_calibrate = true } }

  -- The shown controller is not the one that the answer names.
  still_unknown :
      (glue glue' c c' : Value) (name port : String)
      → controller_of J glue name ≡ some c
      → controller_of J glue port ≡ none
      → OneChanged J glue glue' name c'
      → controller_of J glue' port ≡ none
  still_unknown glue glue' c c' name port there unknown changed =
      changed.controllers port
      ∙ if_cases (λ m. m ≡ none) (str_eq name port)
          (λ same. absurd (
            ground (
              arith,
              sym there ∙ (ap (controller_of J glue) ((eq_iff name port).0 same) ∙ unknown),
            )))
          (λ _. unknown)

  -- In a window that shows the active controller, an answer under a name that is no controller's key, as a
  -- port's name is none, is stored in the shown controller: as its encoder resolution, in the form that the
  -- spin box shows, if that is new in the box. Sent is what `sendControllerSetupToController` sends of that
  -- controller with the new value. No other controller is changed, whichever was calibrated, and no other
  -- section of the configuration.
  pub calibration-shown :
      (w : Window Value D) (glue c : Value) (pulses : ℤ) (port : String)
      → ShowsActive J w glue c
      → str_eq port "" ≡ false
      → controller_of J glue port ≡ none
      → same_real (resolution pulses w) w.tab.encoder ≡ false
      → FieldSent J dump glue
          (put c "encoder" (double (resolution pulses w)))
          w
          (calibration_response J Q dump pulses port w)
  unfolding calibration_response
  calibration-shown w glue c pulses port s named unknown new =
      let x = quotient pulses w.tab.page_length in
      let v = encoder_changed J Q dump (encoder_shown x) w in
      let sent = field_edit-sent J laws Q dump w glue c (encoder (encoder_shown x)) s in
      let (glue', (read, (changed, sent_and_saved))) = sent in
      let gone = still_unknown glue glue' c _ w.controller_name port s.there unknown changed in
      let made : calibration_response J Q dump pulses port w
          ≡ record v { tab = record v.tab { can_calibrate = true } } =
        ap
          (λ b.
            if b || str_eq port ""
            then w
            else rest x port (if same_real (encoder_shown x) w.tab.encoder then w else v))
          s.idle
        ∙ (ap
              (λ b.
                if b
                then w
                else rest x port (if same_real (encoder_shown x) w.tab.encoder then w else v))
              named
            ∙ (ap (λ b. rest x port (if b then w else v)) new
                ∙ ap
                    (λ m.
                      let v' : Window Value D = or_same v m in
                      record v' { tab = record v'.tab { can_calibrate = true } })
                    (unknown_key-unstored v glue' port "encoder" (double x) read gone))) in
      subst (FieldSent J dump glue (put c "encoder" (double (resolution pulses w))) w) (sym made)
        sent
