-- ===== src/Gui/Loading.antt =====
-- The loading of a gun's rows and of a plan into the glue tab: loadGunRowsIntoTable,
-- loadCurrentGunData and onGluePlanSelectorChanged, as it runs while the tab is filled, of
-- src/gui/SettingsWindow.cpp. What was set before an exception stays.
use machine_controller.Base.{
  ℕ, Bool, true, false, List, [], ◌∷◌, String, Option, none, some, if◌then◌else◌, ◌&&◌, ◌||◌,
}
use machine_controller.Base.Int.{ℤ, pos}
use machine_controller.Base.Options.{◌>>=◌}
use machine_controller.Config.Defaults.{has}
use machine_controller.Gui.Json.{GuiJson, value_or, edit, assign, index, value}
use machine_controller.Gui.Setup.{elements_of, plan_at}
use machine_controller.Gui.Store.{empty_gun}
use machine_controller.Gui.Window.{TableRow, Tab, Window, Qt, nth, glue_settings, stored}
use text.Mathlib.Text.{◌==◌ as str_eq}

-- A row whose items are all there.
abbrev pub full_row : String → String → String → TableRow
full_row from to space = record {
  from_item = some from;
  to_item = some to;
  space_item = some space;
}

abbrev pub or_same : {W : Type 0} → W → Option W → W
or_same = value_or

module _ {D : Type 0} (J : GuiJson D) (Q : Qt D) where
  open J use {editor, ratio, is_array, elements, get_text, get_flag, get_int, get_double}
  open editor use {Value, member, is_object, array}
  open Q use {int_text, real_text, offset_shown}

  -- The items of a row up to an exception, and whether there was none.
  unfoldable pub row_items : Value → TableRow × Bool
  row_items row = elim (value J get_int row "from" (pos 0)) [
    | none ↦ (record { from_item = none; to_item = none; space_item = none }, false)
    | some from ↦ elim (value J get_int row "to" (pos 100)) [
      | none ↦
          (record { from_item = some (int_text from); to_item = none; space_item = none }, false)
      | some to ↦ elim (value J get_double row "space" (ratio 5 1)) [
        | none ↦ (
          record {
            from_item = some (int_text from);
            to_item = some (int_text to);
            space_item = none;
          },
          false,
        )
        | some space ↦ (full_row (int_text from) (int_text to) (real_text space), true)
      ]
    ]
  ]

  unfoldable pub load_rows : List Value → List TableRow
  load_rows [] = []
  load_rows (row ∷ rest) =
      let (items, loaded) = row_items row in
      let others = load_rows rest in items ∷ (if loaded then others else [])

  -- `loadGunRowsIntoTable`
  unfoldable pub load_gun_rows : Value → List TableRow
  load_gun_rows gun = load_rows (elements_of J (member gun "rows"))

  abbrev pub gun_at : Value → Option ℕ → Option Value
  gun_at plan none = none
  gun_at plan (some i) = nth (elements_of J (member plan "guns")) i

  -- A gun whose enabling cannot be read changes nothing.
  unfoldable pub show_gun : Option Value → Tab D → Tab D
  show_gun none tab = record tab { gun_enabled = true; rows = [] }
  show_gun (some gun) tab = elim (value J get_flag gun "enabled" true) [
    | none ↦ tab
    | some enabled ↦ record tab { gun_enabled = enabled; rows = load_gun_rows gun }
  ]

  abbrev pub plan_in : Value → String → String → Option Value
  plan_in glue name plan =
      member glue "controllers" >>= (λ cs. member cs name) >>= λ c. plan_at J c plan

  abbrev pub is_selected : String → String → Bool
  is_selected name placeholder = if str_eq name "" || str_eq name placeholder then false else true

  abbrev pub show_gun_of : Option Value → Option ℕ → Tab D → Tab D
  show_gun_of none i tab = tab
  show_gun_of (some plan) i tab = show_gun (gun_at plan i) tab

  -- `loadCurrentGunData`
  unfoldable pub load_gun : Option ℕ → Window Value D → Window Value D
  load_gun i w =
      if is_selected w.controller_name "Select Controller" && is_selected w.plan_name "Select Plan"
      then record w {
        tab =
            show_gun_of
              (glue_settings J w.settings >>= λ glue. plan_in glue w.controller_name w.plan_name) i
              w.tab;
      }
      else w

  abbrev pub default_guns : List Value
  default_guns =
      empty_gun J 1 true ∷ empty_gun J 2 false ∷ empty_gun J 3 false ∷ empty_gun J 4 false ∷ []

  abbrev pub has_guns : Value → Bool
  has_guns plan = has (member plan "guns") && is_array (index J plan "guns")

  -- A plan with no guns gets four, which are saved at once; none if it cannot have any.
  unfoldable pub with_default_guns : Value → Window Value D → Option (Value × Window Value D)
  with_default_guns plan w = if has_guns plan then some (plan, w) else (do
    made ← assign J "guns" (array default_guns) plan
    w' ←
        stored J
          (edit J "controllers"
            (edit J w.controller_name (edit J "plans" (assign J w.plan_name made))))
          w
    some (made, w'))

  abbrev pub plan_text_of : Value → String
  plan_text_of plan = value_or "" (member plan "name" >>= get_text)

  abbrev pub show_offset : Option ℤ → Tab D → Tab D
  show_offset none tab = tab
  show_offset (some n) tab = record tab { sensor_offset = offset_shown n }

  -- What is shown of a plan once it has guns.
  abbrev pub show_guns : Value → Window Value D → Window Value D
  show_guns plan w =
      let loaded : Window Value D = load_gun (some 0) w in
      record loaded {
        tab =
            show_offset (value J get_int plan "sensorOffset" (pos 10))
              (record loaded.tab { gun = some 0 });
      }

  abbrev pub show_made : Window Value D → Option (Value × Window Value D) → Window Value D
  show_made w none = w
  show_made w (some (plan, w')) = show_guns plan w'

  -- The branches of the selected plan's look-up.
  unfoldable pub show_plan : Option Value → Window Value D → Window Value D
  show_plan none w = record w {
    plan_name = "";
    tab = record w.tab { plan_text = ""; rows = []; sensor_offset = offset_shown (pos 10) };
  }
  show_plan (some plan) w =
      let shown : Window Value D = record w {
        tab = record w.tab { plan_text = plan_text_of plan; rows = [] };
      } in
      show_made shown (with_default_guns plan shown)

  abbrev pub show_plan_of : Option Value → Window Value D → Window Value D
  show_plan_of none w = w
  show_plan_of (some glue) w = show_plan (plan_in glue w.controller_name w.plan_name) w

  abbrev pub select_plan : Option (String × String) → Window Value D → Window Value D
  select_plan none w = record w { plan_name = "" }
  select_plan (some item) w =
      let w1 : Window Value D = record w { plan_name = item.1; is_refreshing = true } in
      record (show_plan_of (glue_settings J w1.settings) w1) { is_refreshing = false }

  -- `onGluePlanSelectorChanged` while the tab is filled
  unfoldable pub load_plan : ℕ → Window Value D → Window Value D
  load_plan i w = if str_eq w.controller_name "" then w else select_plan (nth w.tab.plans.items i) w
