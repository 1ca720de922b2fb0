-- ===== src/Gui/Sound/Plans.antt =====
-- The slots that add, remove and rename plans, on sound windows.
use machine_controller.Base.{
  ℕ, ◌≡◌, refl, ◌||◌, List, String, Bytes, Option, none, some, if_cases, if◌then◌else◌,
}
use machine_controller.Base.Options.{◌>>=◌, >>=-eq-some}
use machine_controller.Gui.Filling.{fill_glue_tab, display_text}
use machine_controller.Gui.Json.{GuiJson, IsGuiJson}
use machine_controller.Gui.Slots.{save_active_plan_slot}
use machine_controller.Gui.Sound.Changed.{plan-IsSound}
use machine_controller.Gui.Sound.Changes.{add_plan-Next, remove_plan-Keeps, rename_plan-Keeps}
use machine_controller.Gui.Sound.Edits.{
  alike, send_active-IsSound, filled-IsSound, when_plan-IsSound, save_active_plan-IsSound,
}
use machine_controller.Gui.Sound.Fills.{IsSound}
use machine_controller.Gui.Store.{add_plan, remove_plan, next_plan, rename_plan}
use machine_controller.Gui.Structure.{
  same_index, set_current_text, set_plan_if_found, add_plan_clicked, is_active_plan,
  plan_removed_from, remove_plan_clicked, plan_renamed_from, plan_name_edited,
}
use machine_controller.Gui.Window.{
  Window, Qt, find_data, glue_settings, update_glue, save_to_file, send_active,
}
use machine_controller.Protocol.{Message}
use text.Mathlib.Text.{◌==◌ as str_eq}
use machine_controller.Gui.Sound.Structured.{put-IsSound, saved-IsSound}

module _ {D : Type 0} (J : GuiJson D) (laws : IsGuiJson J) (Q : Qt D) where
  open J use {editor}
  open editor use {Value}

  module _ (dump : Message D → Option Bytes) (numbered : String → ℕ → String) where
    set_plan_if_found-IsSound :
        (i : Option ℕ) (w : Window Value D)
        → IsSound J w
        → IsSound J (set_plan_if_found J Q dump numbered i w)
    set_plan_if_found-IsSound none w s = s
    set_plan_if_found-IsSound (some i) w s =
        if_cases (IsSound J) (same_index (some i) w.tab.plans.current) (λ _. s)
          (λ _. plan-IsSound J laws Q dump i w s)

    pub add_plan-IsSound :
        (draws : List ℕ) (w : Window Value D)
        → IsSound J w
        → IsSound J (add_plan_clicked J Q dump numbered draws w)
    unfolding add_plan_clicked
    add_plan-IsSound draws w s =
        if_cases (IsSound J) (str_eq w.controller_name "") (λ _. s)
          (λ _.
            split (glue_settings J w.settings >>= add_plan J numbered draws w.controller_name) refl)
      where
        named : String → Value → Window Value D
        named id glue = record (update_glue J glue w) { plan_name = id }

        split :
            (m : Option (String × Value))
            → (glue_settings J w.settings >>= add_plan J numbered draws w.controller_name) ≡ m
            → IsSound J (elim m [
              | none ↦ w
              | some (id, glue) ↦
                  let filled : Window Value D =
                    fill_glue_tab J Q (save_active_plan_slot J Q (named id glue)) in
                  send_active J dump
                    (set_plan_if_found J Q dump numbered (find_data id filled.tab.plans) filled)
            ])
        split none e = s
        split (some (id, glue')) e =
            let (glue, (r, h)) = >>=-eq-some (glue_settings J w.settings) _ (id, glue') e in
            let next = add_plan-Next J laws numbered draws w.controller_name id glue glue' h in
            send_active-IsSound J laws Q dump _ (
              set_plan_if_found-IsSound _ _ (
                filled-IsSound J laws Q _ (
                  save_active_plan-IsSound J laws Q (named id glue') (
                    alike J laws Q (update_glue J glue' w) (named id glue') refl refl
                      (put-IsSound J laws Q w glue glue' r next s)))))

    pub remove_plan-IsSound :
        (w : Window Value D) → IsSound J w → IsSound J (remove_plan_clicked J Q dump numbered w)
    unfolding remove_plan_clicked
    remove_plan-IsSound w s =
        if_cases (IsSound J) (str_eq w.controller_name "" || str_eq w.plan_name "") (λ _. s)
          (λ _. split (glue_settings J w.settings) refl)
      where
        removed : Value → Value → Window Value D
        removed before glue = record (save_to_file J (update_glue J glue w)) {
          plan_name = next_plan J w.controller_name w.plan_name before glue;
        }

        split_removed :
            (before : Value) (m : Option Value)
            → glue_settings J w.settings ≡ some before
            → remove_plan J w.controller_name w.plan_name before ≡ m
            → IsSound J (elim m [
              | none ↦ w
              | some glue ↦
                  send_active J dump
                    (save_active_plan_slot J Q (fill_glue_tab J Q (removed before glue)))
            ])
        split_removed before none r e = s
        split_removed before (some glue) r e =
            let next = remove_plan-Keeps J laws w.controller_name w.plan_name before glue e in
            send_active-IsSound J laws Q dump _ (
              save_active_plan-IsSound J laws Q _ (
                filled-IsSound J laws Q (removed before glue) (
                  alike J laws Q (save_to_file J (update_glue J glue w)) (removed before glue) refl
                    refl (saved-IsSound J laws Q _ (put-IsSound J laws Q w before glue r next s)))))

        split :
            (m : Option Value)
            → glue_settings J w.settings ≡ m
            → IsSound J
                (elim m [ none ↦ w | some before ↦ plan_removed_from J Q dump numbered before w ])
        split none r = s
        split (some before) r =
            split_removed before (remove_plan J w.controller_name w.plan_name before) r refl

    renamed-IsSound :
        (before : Value) (name : String) (w : Window Value D)
        → glue_settings J w.settings ≡ some before
        → IsSound J w
        → IsSound J (plan_renamed_from J Q dump numbered before name w)
    unfolding update_glue
    renamed-IsSound before name w r s =
        split (rename_plan J w.controller_name w.plan_name name before) refl
      where
        shown : Value → Window Value D
        shown glue = record (update_glue J glue w) {
          tab = record w.tab {
            plans =
                set_current_text w.tab.plans.current (display_text w.plan_name name) w.tab.plans;
          };
        }

        sent : Value → Window Value D
        sent glue =
            let saved : Window Value D = save_to_file J (shown glue) in
            send_active J dump (
              if is_active_plan J Q dump numbered before (shown glue).controller_name
                (shown glue).plan_name
              then save_active_plan_slot J Q saved
              else saved)

        split :
            (m : Option Value)
            → rename_plan J w.controller_name w.plan_name name before ≡ m
            → IsSound J (elim m [
              | none ↦ w
              | some glue ↦ if (shown glue).writable then sent glue else shown glue
            ])
        split none e = s
        split (some glue) e =
            let next = rename_plan-Keeps J laws w.controller_name w.plan_name name before glue e in
            let s1 : IsSound J (shown glue) =
              alike J laws Q (update_glue J glue w) (shown glue) refl refl
                (put-IsSound J laws Q w before glue r next s) in
            let s2 = saved-IsSound J laws Q (shown glue) s1 in
            if_cases (IsSound J) (shown glue).writable
              (λ _. send_active-IsSound J laws Q dump _ (
                if_cases (IsSound J)
                  (is_active_plan J Q dump numbered before (shown glue).controller_name
                    (shown glue).plan_name)
                  (λ _. save_active_plan-IsSound J laws Q _ s2) (λ _. s2)))
              (λ _. s1)

    pub plan_name-IsSound :
        (typed : String) (w : Window Value D)
        → IsSound J w
        → IsSound J (plan_name_edited J Q dump numbered typed w)
    unfolding plan_name_edited
    plan_name-IsSound typed w s =
        when_plan-IsSound J laws Q w1 _
          (λ t.
            if_cases (IsSound J) (str_eq name "" || str_eq name w.plan_name) (λ _. t)
              (λ _. split t (glue_settings J w.settings) refl))
          (alike J laws Q w w1 refl refl s)
      where
        name : String
        name = Q.trimmed typed

        w1 : Window Value D
        w1 = record w { tab = record w.tab { plan_text = typed } }

        split :
            IsSound J w1
            → (m : Option Value) → glue_settings J w.settings ≡ m
            → IsSound J (elim m [
              | none ↦ w1
              | some before ↦ plan_renamed_from J Q dump numbered before name w1
            ])
        split t none r = t
        split t (some before) r = renamed-IsSound before name w1 r t
