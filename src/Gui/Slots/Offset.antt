-- ===== src/Gui/Slots/Offset.antt =====
-- The sensor offset of a plan.
use machine_controller.Base.{
  ◌≡◌, refl, sym, ap, ◌∙◌, true, false, String, Bytes, Option, none, some, if_cases, if◌then◌else◌,
}
use machine_controller.Base.Int.{ℤ}
use machine_controller.Base.Options.{◌>>=◌}
use machine_controller.Config.Defaults.{has}
use machine_controller.Gui.Json.{GuiJson, IsGuiJson, assign, edit}
use machine_controller.Gui.Json.Laws.{
  guarded, member-settable, assign_settable, edit_settable, index-member, put_member,
  put_member_self, put_member_other, str_eq_self,
}
use machine_controller.Gui.Setup.{
  send_setup_to_controller, plan_at, guns_of, elements_of, send_prepared,
}
use machine_controller.Gui.Setup.Same.{SameSetup, setup_of-same}
use machine_controller.Gui.Slots.{sensor_offset_changed, send_if_saved, when_plan}
use machine_controller.Gui.Slots.Fields.{ShowsActive, send_active-sends, when_selected-runs}
use machine_controller.Gui.Store.{has_plan, save_plan_field}
use machine_controller.Gui.Store.Kept.{
  in_controller_there, active_controller-is, controller_of, OneChanged, OthersKept,
}
use machine_controller.Gui.Window.{
  Window, Qt, glue_settings, save_to_file, update_glue, stored, send_active,
}
use machine_controller.Gui.Window.Stored.{stored-updated, saved_settings, update-OthersKept}
use machine_controller.Protocol.{Message}
use mathlib.Core.Path.{subst}
use text.Mathlib.Text.{◌==◌ as str_eq}
use text.Mathlib.TextEquality.{eq_iff}

module _ {D : Type 0} (J : GuiJson D) (laws : IsGuiJson J) where
  open J use {editor}
  open editor use {Value, member, is_object, settable, put, int}

  abbrev pub with_offset : Value → String → Value → Value → ℤ → Value
  with_offset c plan ps p n = put c "plans" (put ps plan (put p "sensorOffset" (int n)))

  -- A field of a plan other than its guns changes no gun.
  with_offset-guns :
      (c ps p : Value) (plan : String) (n : ℤ) (other : String)
      → member c "plans" ≡ some ps
      → member ps plan ≡ some p
      → settable p ≡ true
      → guns_of J (plan_at J (with_offset c plan ps p n) other) ≡ guns_of J (plan_at J c other)
  with_offset-guns c ps p plan n other h e s =
      let p' = put p "sensorOffset" (int n) in
      let at' : plan_at J (with_offset c plan ps p n) other
          ≡ (if str_eq plan other then some p' else member ps other) =
        ap (λ m. m >>= λ v. member v other)
          (put_member_self J laws c "plans" (put ps plan p')
            (member-settable J laws c "plans" ps h))
        ∙ put_member J laws ps plan other p' (member-settable J laws ps plan p e) in
      let at : plan_at J c other ≡ member ps other = ap (λ m. m >>= λ v. member v other) h in
      ap (guns_of J) at'
      ∙ (if_cases (λ m. guns_of J m ≡ guns_of J (member ps other)) (str_eq plan other)
            (λ same.
              ap (elements_of J) (put_member_other J laws p "sensorOffset" "guns" (int n) s refl)
              ∙ ap (guns_of J) (sym e ∙ ap (member ps) ((eq_iff plan other).0 same)))
            (λ apart. refl)
          ∙ ap (guns_of J) (sym at))

  with_offset-SameSetup :
      (c ps p : Value) (plan : String) (n : ℤ)
      → member c "plans" ≡ some ps
      → member ps plan ≡ some p
      → settable p ≡ true
      → SameSetup J c (with_offset c plan ps p n)
  with_offset-SameSetup c ps p plan n h e s =
      let o = laws.member_is_object c "plans" (ap has h) in
      let t = laws.editor_laws.object_settable c o in
      record {
        before = o;
        after = laws.editor_laws.put_is_object c "plans" _ t;
        members = λ key apart. put_member_other J laws c "plans" key _ t apart;
        guns = λ other. with_offset-guns c ps p plan n other h e s;
      }

  has_plan-is :
      (glue c ps p : Value) (name plan : String)
      → controller_of J glue name ≡ some c
      → member c "plans" ≡ some ps
      → member ps plan ≡ some p
      → has_plan J glue name plan ≡ true
  has_plan-is glue c ps p name plan h e f =
      ap (λ m. has ((m >>= λ v. member v "plans") >>= λ v. member v plan)) h
      ∙ (ap (λ m. has (m >>= λ v. member v plan)) e ∙ ap has f)

  -- The offset is stored in the plan.
  offset_stored :
      (glue c ps p : Value) (name plan : String) (n : ℤ)
      → controller_of J glue name ≡ some c
      → member c "plans" ≡ some ps
      → member ps plan ≡ some p
      → settable p ≡ true
      → (glue' : Value) × ((save_plan_field J name plan "sensorOffset" (int n) glue ≡ some glue')
          × OneChanged J glue glue' name (with_offset c plan ps p n))
  unfolding save_plan_field
  offset_stored glue c ps p name plan n h e f s =
      let in_plan : edit J plan (assign J "sensorOffset" (int n)) ps
          ≡ some (put ps plan (put p "sensorOffset" (int n))) =
        edit_settable J laws plan (assign J "sensorOffset" (int n)) ps
          (put p "sensorOffset" (int n)) (member-settable J laws ps plan p f)
          (ap (assign J "sensorOffset" (int n)) (index-member J laws ps plan p f)
            ∙ assign_settable J laws "sensorOffset" (int n) p s) in
      let in_plans =
        edit_settable J laws "plans" (edit J plan (assign J "sensorOffset" (int n))) c
          (put ps plan (put p "sensorOffset" (int n))) (member-settable J laws c "plans" ps e)
          (ap (edit J plan (assign J "sensorOffset" (int n))) (index-member J laws c "plans" ps e)
            ∙ in_plan) in
      let (glue', (stored_as, changed)) =
        in_controller_there J laws name
          (edit J "plans" (edit J plan (assign J "sensorOffset" (int n)))) glue c
          (with_offset c plan ps p n) h in_plans in
      (
        glue',
        (rw (has_plan-is glue c ps p name plan h e f) (guarded _ _ glue' stored_as).1, changed),
      )

  -- The window shows the active controller and its plan `p`.
  pub record ShowsPlan (w : Window Value D) (glue c ps p : Value) : Type 0 where
    pub shown : ShowsActive J w glue c
    pub plan_named : str_eq w.plan_name "" ≡ false
    pub plans : member c "plans" ≡ some ps
    pub plan : member ps w.plan_name ≡ some p
    pub plan_settable : settable p ≡ true
    pub can_write : w.writable ≡ true

  module _ (Q : Qt D) (dump : Message D → Option Bytes) where
    abbrev then_send : Window Value D → Option (Window Value D) → Window Value D
    then_send w stored_window = elim stored_window [
      | none ↦ w
      | some w' ↦ send_if_saved J Q dump w'
    ]

    -- A plan's change that is stored is sent, if the file can be written.
    runs :
        (w saved : Window Value D) (change : Window Value D → Value → Option Value)
        → w.is_refreshing ≡ false
        → str_eq w.controller_name "" ≡ false
        → str_eq w.plan_name "" ≡ false
        → stored J (change w) w ≡ some saved
        → saved.writable ≡ true
        → when_plan J Q (λ v. then_send v (stored J (change v) v)) w ≡ send_active J dump saved
    runs w saved change r c p e h =
        when_selected-runs J laws Q dump
          (λ v. if str_eq v.plan_name "" then v else then_send v (stored J (change v) v)) w r c
        ∙ (ap (λ b. if b then w else then_send w (stored J (change w) w)) p
            ∙ (ap (then_send w) e ∙ ap (λ b. if b then send_active J dump saved else saved) h))

    -- In a window that shows the active controller and a plan of it, and whose file can be written, a new
    -- sensor offset is stored in that plan, and no other section of the configuration changes. Sent is then
    -- what `sendControllerSetupToController` sends of the controller as it was: the offset of a plan is no
    -- part of the setup.
    pub sensor_offset-unsent :
        (w : Window Value D) (glue c ps p : Value) (n : ℤ)
        → ShowsPlan w glue c ps p
        → (glue' : Value) × ((glue_settings J (sensor_offset_changed J Q dump n w).settings
              ≡ some glue')
            × (OneChanged J glue glue' w.controller_name (with_offset c w.plan_name ps p n)
                × (((sensor_offset_changed J Q dump n w).queue
                      ≡ send_setup_to_controller J dump c w.queue)
                    × OthersKept J w.settings (sensor_offset_changed J Q dump n w).settings)))
    unfolding sensor_offset_changed save_to_file update_glue send_setup_to_controller
    sensor_offset-unsent w glue c ps p n s =
        let a = s.shown in
        let (glue', (e, changed)) =
          offset_stored glue c ps p w.controller_name w.plan_name n a.there s.plans s.plan
            s.plan_settable in
        let w1 : Window Value D = record w { tab = record w.tab { sensor_offset = n } } in
        let saved : Window Value D = save_to_file J (update_glue J glue' w1) in
        let read = saved_settings J laws w1 glue glue' a.read changed.object in
        let c' = with_offset c w.plan_name ps p n in
        let same =
          setup_of-same J c c'
            (with_offset-SameSetup c ps p w.plan_name n s.plans s.plan s.plan_settable) in
        let sends = send_active-sends J laws Q dump saved glue' c' a.idle read (
          active_controller-is J laws glue' c' w.controller_name
            (ap (λ m. m >>= J.get_text) (changed.others "activeController" refl) ∙ a.active)
            (changed.controllers w.controller_name ∙ rw (str_eq_self w.controller_name) refl)) in
        let made : sensor_offset_changed J Q dump n w
            ≡ record saved { queue = send_setup_to_controller J dump c w.queue } =
          runs w1 saved
            (λ v. save_plan_field J v.controller_name v.plan_name "sensorOffset" (int n)) a.idle
            a.named s.plan_named
            (stored-updated J laws
              (save_plan_field J w.controller_name w.plan_name "sensorOffset" (int n)) w1 glue glue'
              a.read e)
            s.can_write
          ∙ (sends ∙ ap (λ m. record saved { queue = send_prepared J dump m w.queue }) same) in
        subst
          (λ (w' : Window Value D).
            (g : Value) × ((glue_settings J w'.settings ≡ some g)
              × (OneChanged J glue g w.controller_name c'
                  × ((w'.queue ≡ send_setup_to_controller J dump c w.queue)
                      × OthersKept J w.settings w'.settings))))
          (sym made)
          (
            glue',
            (
              read,
              (
                changed,
                (refl, update-OthersKept J laws w.settings glue' glue a.read changed.object),
              ),
            ),
          )
