-- ===== src/Gui/Filling.antt =====
-- The filling of the glue tab from the settings: populateGlueCommunicationComboBox,
-- fillGlueTabFields and onGlueControllerSelectorChanged, as it runs while the tab is filled, of
-- src/gui/SettingsWindow.cpp. saveCurrentControllerWithoutReload, which it calls first, returns at once
-- then, and nothing else calls that function.
use machine_controller.Base.{
  ℕ, ◌+◌, Bool, true, false, List, [], ◌∷◌, String, Option, none, some, if◌then◌else◌, ◌&&◌, ◌||◌,
}
use machine_controller.Base.Int.{pos}
use machine_controller.Base.Options.{◌>>=◌}
use machine_controller.Config.Defaults.{has}
use machine_controller.Gui.Json.{GuiJson, value_or}
use machine_controller.Gui.Loading.{load_plan}
use machine_controller.Gui.Setup.{controller_enabled}
use machine_controller.Gui.Window.{
  Combo, Tab, Window, Qt, glue_settings, find_data, find_text, find_from, current_item,
  current_text, data_of, cleared, add_item, select_found,
}
use Prim.Native.String.{◌++◌ as ◌+++◌}
use text.Mathlib.Text.{◌==◌ as str_eq}

-- "key: name", or the key if there is no name.
abbrev pub display_text : String → String → String
display_text key name = if str_eq name "" then key else key +++ ": " +++ name

module _ {D : Type 0} (J : GuiJson D) (Q : Qt D) where
  open J use {editor, ratio, entries, is_number, get_text, get_flag, get_int, get_double}
  open editor use {Value, object, member, is_object}
  open Q use {same_word, encoder_shown, current_shown, duration_shown, page_shown}

  -- Adds the active ports up to the first exception.
  unfoldable pub add_active : List (String × Value) → Combo → Combo
  add_active [] c = c
  add_active ((name, port) ∷ rest) c =
      let skipped = add_active rest c in
      let added = add_active rest (if has (find_text name c) then c else add_item name "" c) in
      if is_object port && has (member port "active")
      then (elim (member port "active" >>= get_flag) [
        | none ↦ c
        | some active ↦ if active then added else skipped
      ])
      else skipped

  abbrev pub communication_entries : Value → List (String × Value)
  communication_entries config =
      if is_object config then entries (value_or object (member config "communication")) else []

  -- `populateGlueCommunicationComboBox`
  unfoldable pub populate_communications : Value → Combo → Combo
  populate_communications config c =
      let filled : Combo = add_active (communication_entries config) cleared in
      select_found (find_text (current_text c) filled) filled

  abbrev pub text_member : Value → String → Option String
  text_member v key = member v key >>= get_text

  abbrev pub number_or : {A : Type 0} → (Value → Option A) → A → Option Value → A
  number_or get d none = d
  number_or get d (some v) = if is_number v then value_or d (get v) else d

  abbrev pub controller_title : Value → String
  controller_title c = value_or (value_or "" (text_member c "description")) (text_member c "name")

  -- A word of another case is found too.
  abbrev pub select_word : String → Combo → Combo
  select_word word c = select_found (find_from (λ item. same_word item.0 word) 0 c.items) c

  unfoldable pub show_controller_fields : Value → Tab D → Tab D
  show_controller_fields c tab = record tab {
    name = controller_title c;
    communications =
        select_found (find_text (value_or "" (text_member c "communication")) tab.communications)
          tab.communications;
    types = select_word (value_or "dots" (text_member c "type")) tab.types;
    encoder = encoder_shown (number_or get_double (ratio 1 1) (member c "encoder"));
    page_length = page_shown (number_or get_int (pos 100) (member c "pageLength"));
    enabled = controller_enabled J c;
    start_current = current_shown (number_or get_double (ratio 1 1) (member c "startCurrent"));
    start_duration =
        duration_shown (number_or get_double (ratio 5 10) (member c "startDurationMS"));
    hold_current = current_shown (number_or get_double (ratio 5 10) (member c "holdCurrent"));
    dot_sizes = select_word (value_or "medium" (text_member c "dotSize")) tab.dot_sizes;
  }

  -- The items of a controller's plans, and whether none of their names threw.
  unfoldable pub add_plan_items : List (String × Value) → Combo → Combo × Bool
  add_plan_items [] c = (c, true)
  add_plan_items ((key, plan) ∷ rest) c =
      let skipped = add_plan_items rest c in
      if is_object plan && has (member plan "name")
      then (elim (text_member plan "name") [
        | none ↦ (c, false)
        | some name ↦ add_plan_items rest (add_item (display_text key name) key c)
      ])
      else skipped

  abbrev pub plan_entries : Option Value → List (String × Value)
  plan_entries none = []
  plan_entries (some plans) = if is_object plans then entries plans else []

  -- The active plan's item, or the first.
  unfoldable pub choose_plan : Value → Combo → ℕ
  choose_plan c plans = value_or 0 (text_member c "activePlan" >>= λ active. find_data active plans)

  -- What follows the filling of the plans' box, by its items.
  abbrev pub show_items : Value → Combo → List (String × String) → Window Value D → Window Value D
  show_items c plans [] w = record w {
    plan_name = "";
    tab = record w.tab { plan_text = ""; rows = [] };
  }
  show_items c plans (item ∷ rest) w =
      let i : ℕ = choose_plan c plans in
      let chosen : Combo = record plans { current = some i } in
      load_plan J Q i (record w {
        plan_name = data_of (current_item chosen);
        tab = record w.tab { plans = chosen };
      })

  unfoldable pub show_plans : Value → Window Value D → Window Value D
  show_plans c w =
      let (plans, named) = add_plan_items (plan_entries (member c "plans")) cleared in
      let filled : Window Value D = record w { tab = record w.tab { plans = plans } } in
      if named then show_items c plans plans.items filled else filled

  abbrev pub show_controller : Option Value → Window Value D → Window Value D
  show_controller none w = record w { controller_name = "" }
  show_controller (some c) w = show_plans c (record w { tab = show_controller_fields c w.tab })

  abbrev pub controller_in : Value → String → Option Value
  controller_in glue name = member glue "controllers" >>= λ cs. member cs name

  abbrev pub show_controller_of : Option Value → Window Value D → Window Value D
  show_controller_of none w = w
  show_controller_of (some glue) w = show_controller (controller_in glue w.controller_name) w

  abbrev pub post_setup : Window Value D → Window Value D
  post_setup w =
      if str_eq w.controller_name "" || w.is_initializing
      then w
      else record w { posted = w.posted + 1 }

  abbrev pub select_controller : Option (String × String) → Window Value D → Window Value D
  select_controller none w = record w { controller_name = "" }
  select_controller (some item) w =
      let w1 : Window Value D = record w { controller_name = item.1; is_refreshing = true } in
      post_setup
        (record (show_controller_of (glue_settings J w1.settings) w1) { is_refreshing = false })

  -- `onGlueControllerSelectorChanged` while the tab is filled
  unfoldable pub load_controller : Window Value D → Window Value D
  load_controller w =
      if str_eq w.controller_name ""
      then w
      else select_controller (current_item w.tab.controllers) w

  unfoldable pub add_controller_items : List (String × Value) → Combo → Combo
  add_controller_items [] c = c
  add_controller_items ((key, controller) ∷ rest) c = add_controller_items rest (
      if is_object controller
      then add_item (display_text key (value_or "" (text_member controller "name"))) key c
      else c)

  abbrev pub first_if_none : Option ℕ → Combo → Combo
  first_if_none none c = record c { current = some 0 }
  first_if_none (some i) c = record c { current = some i }

  -- The active controller's item is selected, or the first.
  unfoldable pub choose_controller : Value → Combo → Combo
  choose_controller glue c =
      first_if_none
        (text_member glue "activeController" >>= λ active.
          if str_eq active "" then none else find_data active c)
        c

  -- What follows the filling of the controllers' box, by its items.
  abbrev pub fill_items : Value → Combo → List (String × String) → Window Value D → Window Value D
  fill_items glue combo [] w = w
  fill_items glue combo (item ∷ rest) w =
      let chosen : Combo = choose_controller glue combo in
      load_controller (record w {
        controller_name = data_of (current_item chosen);
        tab = record w.tab { controllers = chosen };
      })

  abbrev pub fill_controllers : Value → Value → Window Value D → Window Value D
  fill_controllers glue controllers w =
      let combo : Combo = add_controller_items (entries controllers) cleared in
      fill_items glue combo combo.items (record w {
        tab = record w.tab {
          communications = populate_communications w.settings w.tab.communications;
        };
      })

  abbrev pub fill_sections : Value → Option Value → Window Value D → Window Value D
  fill_sections glue none w = w
  fill_sections glue (some controllers) w =
      if is_object controllers then fill_controllers glue controllers w else w

  abbrev pub fill_settings : Option Value → Window Value D → Window Value D
  fill_settings none w = w
  fill_settings (some glue) w = fill_sections glue (member glue "controllers") w

  -- `fillGlueTabFields`
  unfoldable pub fill_glue_tab : Window Value D → Window Value D
  fill_glue_tab w =
      let empty : Window Value D = record w {
        is_refreshing = true;
        tab = record w.tab { controllers = cleared; plans = cleared; rows = [] };
      } in
      record (fill_settings (glue_settings J w.settings) empty) { is_refreshing = false }
