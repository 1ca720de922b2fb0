-- ===== src/Gui/Structure.antt =====
-- The slots of src/gui/SettingsWindow.cpp that add, remove and rename controllers and plans.
use machine_controller.Base.{
  ℕ, Bool, true, false, List, [], ◌∷◌, String, Bytes, Option, none, some, if◌then◌else◌, ◌||◌, ◌==◌,
  ◌-◌,
}
use machine_controller.Base.Options.{◌>>=◌}
use machine_controller.Gui.Json.{GuiJson}
use machine_controller.Gui.Filling.{fill_glue_tab, display_text}
use machine_controller.Gui.Slots.{
  when_plan, save_controller_slot, save_active_plan_slot, controller_selected, plan_selected,
}
use machine_controller.Gui.Store.{
  add_controller, remove_controller, add_plan, remove_plan, next_plan, was_active, rename_plan,
}
use machine_controller.Gui.Window.{
  Combo, Window, Qt, find_data, find_text, current_text, glue_settings, update_glue, save_to_file,
  send_active,
}
use machine_controller.Protocol.{Message}
use text.Mathlib.Text.{◌==◌ as str_eq}

abbrev pub same_index : Option ℕ → Option ℕ → Bool
same_index none none = true
same_index (some i) (some j) = i == j
same_index i j = false

-- `setItemText` of the current item
unfoldable pub set_text : ℕ → String → List (String × String) → List (String × String)
set_text i text [] = []
set_text i text (item ∷ rest) =
    if i == 0 then (text, item.1) ∷ rest else item ∷ set_text (i - 1) text rest

abbrev pub set_current_text : Option ℕ → String → Combo → Combo
set_current_text none text c = c
set_current_text (some i) text c = record c { items = set_text i text c.items }

module _ {D : Type 0} (J : GuiJson D) (Q : Qt D) where
  open J use {editor}
  open editor use {Value, member}

  -- `setCurrentIndex`, whose signal runs the slot if the index changes
  abbrev pub set_controller_index : Option ℕ → Window Value D → Window Value D
  set_controller_index i w =
      if same_index i w.tab.controllers.current then w else controller_selected J Q i w

  abbrev pub set_if_found : Option ℕ → Window Value D → Window Value D
  set_if_found none w = w
  set_if_found (some i) w = set_controller_index (some i) w

  abbrev pub reselect_controller : String → Window Value D → Window Value D
  reselect_controller next w =
      if str_eq next ""
      then w
      else (let w1 : Window Value D = set_controller_index none w in
          set_if_found (find_text next w1.tab.controllers) w1)

  unfoldable pub remove_controller_clicked : Window Value D → Window Value D
  remove_controller_clicked w =
      if str_eq w.controller_name ""
      then w
      else elim (glue_settings J w.settings >>= remove_controller J w.controller_name) [
        | none ↦ w
        | some (next, glue) ↦ fill_glue_tab J Q (
            reselect_controller next (record (save_to_file J (update_glue J glue w)) {
              controller_name = next;
              plan_name = "";
            }))
      ]

  module _ (dump : Message D → Option Bytes) (numbered : String → ℕ → String) where
    unfoldable pub add_controller_clicked : Window Value D → Window Value D
    add_controller_clicked w =
        let w1 : Window Value D =
          if str_eq w.controller_name "" then w else save_controller_slot J Q dump w in
        elim (glue_settings J w1.settings
          >>= add_controller J numbered (current_text w1.tab.communications)) [
            | none ↦ w1
            | some (id, glue) ↦
                let filled : Window Value D =
                  fill_glue_tab J Q (save_to_file J (update_glue J glue w1)) in
                set_if_found (find_data id filled.tab.controllers) filled
          ]

    abbrev pub set_plan_if_found : Option ℕ → Window Value D → Window Value D
    set_plan_if_found none w = w
    set_plan_if_found (some i) w =
        if same_index (some i) w.tab.plans.current then w else plan_selected J Q dump i w

    unfoldable pub add_plan_clicked : List ℕ → Window Value D → Window Value D
    add_plan_clicked draws w =
        if str_eq w.controller_name ""
        then w
        else elim (glue_settings J w.settings >>= add_plan J numbered draws w.controller_name) [
          | none ↦ w
          | some (id, glue) ↦
              let filled : Window Value D =
                fill_glue_tab J Q
                  (save_active_plan_slot J Q (record (update_glue J glue w) { plan_name = id })) in
              send_active J dump (set_plan_if_found (find_data id filled.tab.plans) filled)
        ]

    abbrev pub plan_removed_from : Value → Window Value D → Window Value D
    plan_removed_from before w = elim (remove_plan J w.controller_name w.plan_name before) [
      | none ↦ w
      | some glue ↦ send_active J dump (
          save_active_plan_slot J Q (
            fill_glue_tab J Q (record (save_to_file J (update_glue J glue w)) {
              plan_name = next_plan J w.controller_name w.plan_name before glue;
            })))
    ]

    unfoldable pub remove_plan_clicked : Window Value D → Window Value D
    remove_plan_clicked w =
        if str_eq w.controller_name "" || str_eq w.plan_name ""
        then w
        else elim (glue_settings J w.settings) [
          | none ↦ w
          | some before ↦ plan_removed_from before w
        ]

    abbrev pub is_active_plan : Value → String → String → Bool
    is_active_plan glue name plan =
        was_active J plan
          (member glue "controllers" >>= (λ cs. member cs name) >>= λ c. member c "activePlan")

    abbrev pub plan_renamed_from : Value → String → Window Value D → Window Value D
    plan_renamed_from before name w =
        elim (rename_plan J w.controller_name w.plan_name name before) [
          | none ↦ w
          | some glue ↦
              let w1 : Window Value D = record (update_glue J glue w) {
                tab = record w.tab {
                  plans =
                      set_current_text w.tab.plans.current (display_text w.plan_name name)
                        w.tab.plans;
                };
              } in
              if w1.writable
              then (let saved : Window Value D = save_to_file J w1 in
                  send_active J dump (
                    if is_active_plan before w.controller_name w.plan_name
                    then save_active_plan_slot J Q saved
                    else saved))
              else w1
        ]

    -- A name of spaces, or the plan's key, is not taken.
    unfoldable pub plan_name_edited : String → Window Value D → Window Value D
    plan_name_edited typed w =
        when_plan J Q
          (λ v.
            let name : String = Q.trimmed typed in
            if str_eq name "" || str_eq name v.plan_name
            then v
            else elim (glue_settings J v.settings) [
              | none ↦ v
              | some before ↦ plan_renamed_from before name v
            ])
          (record w { tab = record w.tab { plan_text = typed } })
