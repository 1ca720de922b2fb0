-- ===== src/Gui/Slots/Fields.antt =====
-- The slots that store one field of the controller and send it.
use machine_controller.Base.{
  ℕ, ◌≡◌, refl, sym, ap, ◌∙◌, true, false, String, Bytes, Option, some, if◌then◌else◌,
}
use machine_controller.Base.Options.{◌>>=◌}
use machine_controller.Gui.Json.{GuiJson, IsGuiJson, assign}
use machine_controller.Gui.Json.Laws.{assign_settable, str_eq_self}
use machine_controller.Gui.Setup.{
  active_controller, send_setup_to_controller, send_setup_to_active, send_to_active,
}
use machine_controller.Gui.Slots.{
  encoder_changed, start_current_changed, start_duration_changed, hold_current_changed,
  dot_size_selected, field_slot, when_selected, and_send,
}
use machine_controller.Gui.Store.{save_field}
use machine_controller.Gui.Store.Kept.{
  in_controller_there, active_controller-is, controller_of, OneChanged, OthersKept,
}
use machine_controller.Gui.Window.{
  Tab, Window, Qt, current_text, glue_settings, save_to_file, update_glue, stored, send_active,
}
use machine_controller.Gui.Window.Stored.{stored-updated, saved_settings, update-OthersKept}
use machine_controller.Protocol.{Message}
use mathlib.Core.Path.{subst}
use text.Mathlib.Text.{◌==◌ as str_eq}

-- What the user can change of a controller's electrical settings.
pub data FieldEdit (D : Type 0) : Type 0 where
  encoder : D → FieldEdit D
  start_current : D → FieldEdit D
  start_duration : D → FieldEdit D
  hold_current : D → FieldEdit D
  dot_size : ℕ → FieldEdit D

module _ {D : Type 0} (J : GuiJson D) where
  open J use {editor, get_text, double}
  open editor use {Value, member, is_object, settable, put, text}

  abbrev pub edited : FieldEdit D → String
  edited (encoder x) = "encoder"
  edited (start_current x) = "startCurrent"
  edited (start_duration x) = "startDurationMS"
  edited (hold_current x) = "holdCurrent"
  edited (dot_size i) = "dotSize"

  abbrev pub new_value : FieldEdit D → Tab D → Value
  new_value (encoder x) tab = double x
  new_value (start_current x) tab = double x
  new_value (start_duration x) tab = double x
  new_value (hold_current x) tab = double x
  new_value (dot_size i) tab = text (current_text (record tab.dot_sizes { current = some i }))

  -- The window shows the active controller, which is stored as `c`.
  pub record ShowsActive (w : Window Value D) (glue c : Value) : Type 0 where
    pub idle : w.is_refreshing ≡ false
    pub named : str_eq w.controller_name "" ≡ false
    pub read : glue_settings J w.settings ≡ some glue
    pub active : (member glue "activeController" >>= get_text) ≡ some w.controller_name
    pub there : controller_of J glue w.controller_name ≡ some c
    pub is_settable : settable c ≡ true

  module _ (Q : Qt D) (dump : Message D → Option Bytes) where
    abbrev pub run_edit : FieldEdit D → Window Value D → Window Value D
    run_edit (encoder x) = encoder_changed J Q dump x
    run_edit (start_current x) = start_current_changed J Q dump x
    run_edit (start_duration x) = start_duration_changed J Q dump x
    run_edit (hold_current x) = hold_current_changed J Q dump x
    run_edit (dot_size i) = dot_size_selected J Q dump i

  -- The second window has the settings with the controller `c`, the same other sections of the
  -- configuration, and has sent what is sent of that controller.
  abbrev pub FieldSent :
      (Message D → Option Bytes) → Value → Value → Window Value D → Window Value D → Type 0
  FieldSent dump glue c w w' =
      (glue' : Value) × ((glue_settings J w'.settings ≡ some glue')
        × (OneChanged J glue glue' w.controller_name c
            × ((w'.queue ≡ send_setup_to_controller J dump c w.queue)
                × ((w.writable ≡ true → w'.file ≡ w'.settings)
                    × OthersKept J w.settings w'.settings))))

  module _ (laws : IsGuiJson J) where
    module _ (Q : Qt D) (dump : Message D → Option Bytes) where
      pub when_selected-runs :
          (slot : Window Value D → Window Value D) (w : Window Value D)
          → w.is_refreshing ≡ false
          → str_eq w.controller_name "" ≡ false
          → when_selected J Q slot w ≡ slot w
      when_selected-runs slot w r n = rw r (rw n refl)

      -- What is sent is the setup of the active controller as it is stored.
      pub send_active-sends :
          (w : Window Value D) (glue c : Value)
          → w.is_refreshing ≡ false
          → glue_settings J w.settings ≡ some glue
          → active_controller J glue ≡ some c
          → send_active J dump w ≡ record w { queue = send_setup_to_controller J dump c w.queue }
      unfolding send_active send_setup_to_active send_to_active
      send_active-sends w glue c r g a = rw r (rw g (rw a refl))

      pub sent_field :
          (w : Window Value D) (glue c : Value) (key : String) (x : Value)
          → ShowsActive w glue c
          → (glue' : Value) × (OneChanged J glue glue' w.controller_name (put c key x)
              × ((glue_settings J (save_to_file J (update_glue J glue' w)).settings ≡ some glue')
                  × (field_slot J Q dump key x w ≡ record (save_to_file J (update_glue J glue' w)) {
                    queue = send_setup_to_controller J dump (put c key x) w.queue;
                  })))
      unfolding save_field save_to_file update_glue
      sent_field w glue c key x s =
          let (glue', (e, changed)) =
            in_controller_there J laws w.controller_name (assign J key x) glue c (put c key x)
              s.there (assign_settable J laws key x c s.is_settable) in
          let saved : Window Value D = save_to_file J (update_glue J glue' w) in
          let read = saved_settings J laws w glue glue' s.read changed.object in
          (
            glue',
            (
              changed,
              (
                read,
                when_selected-runs
                      (λ v. and_send J Q dump v (stored J (save_field J v.controller_name key x) v))
                      w s.idle s.named
                    ∙ (ap (and_send J Q dump w) (
                          stored-updated J laws (save_field J w.controller_name key x) w glue glue'
                            s.read e)
                        ∙ send_active-sends saved glue' (put c key x) s.idle read (
                            active_controller-is J laws glue' (put c key x) w.controller_name
                              (ap (λ m. m >>= get_text) (changed.others "activeController" refl)
                                ∙ s.active)
                              (changed.controllers w.controller_name
                                ∙ rw (str_eq_self w.controller_name) refl))),
              ),
            ),
          )

      in_tab :
          (w : Window Value D) (glue c : Value) (tab : Tab D)
          → ShowsActive w glue c
          → ShowsActive (record w { tab = tab }) glue c
      in_tab w glue c tab s = record {
        idle = s.idle;
        named = s.named;
        read = s.read;
        active = s.active;
        there = s.there;
        is_settable = s.is_settable;
      }

      stored_and_sent :
          (w : Window Value D) (glue c : Value) (tab : Tab D) (key : String) (x : Value)
          → ShowsActive w glue c
          → FieldSent dump glue (put c key x) w (field_slot J Q dump key x (record w { tab = tab }))
      unfolding save_to_file update_glue
      stored_and_sent w glue c tab key x s =
          let w1 : Window Value D = record w { tab = tab } in
          let (glue', (changed, (read, made))) =
            sent_field w1 glue c key x (in_tab w glue c tab s) in
          subst (FieldSent dump glue (put c key x) w) (sym made) (
            glue',
            (
              read,
              (
                changed,
                (
                  refl,
                  (
                    ap (λ b. if b then (update_glue J glue' w1).settings else w.file),
                    update-OthersKept J laws w.settings glue' glue s.read changed.object,
                  ),
                ),
              ),
            ),
          )

      -- In a window that shows the active controller, a change of its encoder resolution, start current,
      -- start duration, hold current or dot size is stored in that controller and changes no other
      -- controller, nothing else of the glue settings and no other section of the configuration; where the
      -- file can be written, it is saved. Sent is what `sendControllerSetupToController` sends of the
      -- controller with the new value, which is nothing for a disabled one, and nothing else.
      pub field_edit-sent :
          (w : Window Value D) (glue c : Value) (e : FieldEdit D)
          → ShowsActive w glue c
          → FieldSent dump glue (put c (edited e) (new_value e w.tab)) w (run_edit Q dump e w)
      unfolding encoder_changed start_current_changed start_duration_changed hold_current_changed
          dot_size_selected
      field_edit-sent w glue c (encoder x) s = stored_and_sent w glue c _ "encoder" (double x) s
      field_edit-sent w glue c (start_current x) s =
          stored_and_sent w glue c _ "startCurrent" (double x) s
      field_edit-sent w glue c (start_duration x) s =
          stored_and_sent w glue c _ "startDurationMS" (double x) s
      field_edit-sent w glue c (hold_current x) s =
          stored_and_sent w glue c _ "holdCurrent" (double x) s
      field_edit-sent w glue c (dot_size i) s =
          stored_and_sent w glue c _ "dotSize" (new_value (dot_size i) w.tab) s
