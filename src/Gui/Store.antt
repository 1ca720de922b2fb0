-- ===== src/Gui/Store.antt =====
-- The glue settings, and what the glue tab's buttons and fields of src/gui/SettingsWindow.cpp make of
-- them. Each slot changes a copy and stores it at the end, so a result `none`, a return before that or
-- an exception, leaves the settings as they are.
pub mod Kept
pub mod Removed
pub mod Added
pub mod Numbered
use machine_controller.Base.{
  ℕ, ◌+◌, zero, suc, Bool, true, false, List, [], ◌∷◌, length, String, Option, none, some,
  if◌then◌else◌, ◌&&◌, ltb, ◌==◌,
}
use machine_controller.Base.Int.{ℤ, pos}
use machine_controller.Base.Options.{◌>>=◌}
use machine_controller.Config.Defaults.{has}
use machine_controller.Gui.Json.{
  GuiJson, value_or, edit, edit_element, assign, assign_all, ensured, index, object_of, is_text,
}
use text.Mathlib.Text.{◌==◌ as str_eq}

-- The row that a new plan starts with, and the fields of a controller that the tab shows.
pub record ControllerFields (D : Type 0) : Type 0 where
  pub name : String
  pub communication : String
  pub type : String
  pub encoder : D
  pub page_length : ℤ
  pub enabled : Bool

-- The first number from `id` on that is not taken, within the fuel.
unfoldable pub first_free : ℕ → (ℕ → Bool) → ℕ → Option ℕ
first_free zero taken id = none
first_free (suc fuel) taken id =
    let rest = first_free fuel taken (id + 1) in if taken id then rest else some id

-- The loop that draws numbers until one is free; `none` if the draws given run out.
unfoldable pub drawn_free : (ℕ → Bool) → List ℕ → Option ℕ
drawn_free taken [] = none
drawn_free taken (n ∷ draws) = if taken n then drawn_free taken draws else some n

-- The key of the first entry that has another key than the one given.
unfoldable pub next_key : {V : Type 0} → String → List (String × V) → String
next_key removed [] = ""
next_key removed ((key, v) ∷ rest) = if str_eq key removed then next_key removed rest else key

abbrev pub first_key : {V : Type 0} → List (String × V) → String
first_key [] = ""
first_key ((key, v) ∷ rest) = key

module _ {D : Type 0} (J : GuiJson D) where
  open J use {editor, ratio, double, erase, entries, size, is_array, elements}
  open editor use {Value, object, member, text, int, real, flag, array}

  abbrev pub has_controller : Value → String → Bool
  has_controller glue name = has (member glue "controllers" >>= λ cs. member cs name)

  abbrev pub in_controller : String → (Value → Option Value) → Value → Option Value
  in_controller name change glue =
      if has_controller glue name then edit J "controllers" (edit J name change) glue else none

  unfoldable pub save_active_controller : String → Value → Option Value
  save_active_controller id = assign J "activeController" (text id)

  unfoldable pub save_active_plan : String → String → Value → Option Value
  save_active_plan name plan = in_controller name (assign J "activePlan" (text plan))

  -- A slot that stores one field of the controller.
  unfoldable pub save_field : String → String → Value → Value → Option Value
  save_field name key x = in_controller name (assign J key x)

  abbrev pub put_fields : ControllerFields D → Value → Option Value
  put_fields t controller = do
    c ←
        assign_all J
          (("name", text t.name)
            ∷ ("communication", text t.communication)
            ∷ ("type", text t.type)
            ∷ ("encoder", double t.encoder)
            ∷ ("pageLength", int t.page_length)
            ∷ ("enabled", flag t.enabled)
            ∷ [])
          controller
    ensured J "plans" c

  unfoldable pub save_controller : String → ControllerFields D → Value → Option Value
  save_controller name t glue = do
    g1 ← ensured J "controllers" glue
    g2 ← edit J "controllers" (edit J name (put_fields t)) g1
    assign J "activeController" (text name) g2

  unfoldable pub empty_gun : ℕ → Bool → Value
  empty_gun i enabled =
      object_of J (("gunId", int (pos i)) ∷ ("enabled", flag enabled) ∷ ("rows", array []) ∷ [])
        object

  abbrev pub four_guns : Bool → Bool → List Value
  four_guns first others =
      empty_gun 1 first ∷ empty_gun 2 others ∷ empty_gun 3 others ∷ empty_gun 4 others ∷ []

  -- The controller that the button adds, with its plan plan_1.
  unfoldable pub new_controller : String → Value
  new_controller communication =
      object_of J
        (("name", text "New Controller")
          ∷ ("communication", text communication)
          ∷ ("type", text "dots")
          ∷ ("encoder", real 1 1)
          ∷ ("enabled", flag true)
          ∷ ("pageLength", int (pos 100))
          ∷ ("startCurrent", real 1 1)
          ∷ ("startDurationMS", real 5 10)
          ∷ ("holdCurrent", real 5 10)
          ∷ ("dotSize", text "medium")
          ∷ (
            "plans",
            object_of J
                ((
                  "plan_1",
                  object_of J
                      (("name", text "plan_1")
                        ∷ ("sensorOffset", int (pos 10))
                        ∷ ("guns", array (four_guns false false))
                        ∷ [])
                      object,
                )
                  ∷ [])
                object,
          )
          ∷ ("activePlan", text "plan_1")
          ∷ [])
        object

  abbrev pub without_controller : String → Value → Option (String × Value)
  without_controller name glue = do
    g1 ← edit J "controllers" (λ cs. some (erase cs name)) glue
    let next = next_key name (entries (index J g1 "controllers"))
    g2 ← assign J "activeController" (text next) g1
    some (next, g2)

  -- The settings without the controller, and the next one.
  unfoldable pub remove_controller : String → Value → Option (String × Value)
  remove_controller name glue =
      if has_controller glue name then without_controller name glue else none

  abbrev pub first_row : Value
  first_row =
      object_of J (("from", int (pos 0)) ∷ ("to", int (pos 100)) ∷ ("space", real 10 1) ∷ []) object

  unfoldable pub new_plan : Value
  new_plan =
      object_of J
        (("name", text "New Plan")
          ∷ ("sensorOffset", int (pos 10))
          ∷ (
            "guns",
            array (
                object_of J
                  (("gunId", int (pos 1))
                    ∷ ("enabled", flag true)
                    ∷ ("rows", array (first_row ∷ []))
                    ∷ [])
                  object
                ∷ empty_gun 2 false
                ∷ empty_gun 3 false
                ∷ empty_gun 4 false
                ∷ []),
          )
          ∷ [])
        object

  abbrev pub plan_added : String → Value → Option Value
  plan_added id controller = do
    c1 ← edit J "plans" (assign J id new_plan) controller
    assign J "activePlan" (text id) c1

  abbrev pub has_plan : Value → String → String → Bool
  has_plan glue name plan = has (
      member glue "controllers" >>= (λ cs. member cs name) >>= (λ c. member c "plans") >>= λ ps.
      member ps plan)

  abbrev pub was_active : String → Option Value → Bool
  was_active plan none = false
  was_active plan (some v) = is_text J v plan

  unfoldable pub plan_removed : String → Value → Option Value
  plan_removed plan controller = do
    c1 ← edit J "plans" (λ ps. some (erase ps plan)) controller
    if was_active plan (member controller "activePlan")
        then assign J "activePlan" (text (first_key (entries (index J c1 "plans")))) c1
        else some c1

  -- The settings without the plan.
  unfoldable pub remove_plan : String → String → Value → Option Value
  remove_plan name plan glue =
      if has_plan glue name plan
      then edit J "controllers" (edit J name (plan_removed plan)) glue
      else none

  -- The plan that the window goes on with: another one, if the active plan was removed.
  unfoldable pub next_plan : String → String → Value → Value → String
  next_plan name plan before after =
      if was_active plan
        (member before "controllers" >>= (λ cs. member cs name) >>= λ c. member c "activePlan")
      then first_key (entries (index J (index J (index J after "controllers") name) "plans"))
      else ""

  -- A new name; the active plan stays the active one.
  unfoldable pub plan_renamed : String → String → Value → Option Value
  plan_renamed plan text_given controller = do
    c1 ← edit J "plans" (edit J plan (assign J "name" (text text_given))) controller
    if was_active plan (member controller "activePlan")
        then assign J "activePlan" (text plan) c1
        else some c1

  unfoldable pub rename_plan : String → String → String → Value → Option Value
  rename_plan name plan text_given glue =
      if has_plan glue name plan
      then edit J "controllers" (edit J name (plan_renamed plan text_given)) glue
      else none

  -- A field of a plan is stored, if the plan is there.
  unfoldable pub save_plan_field : String → String → String → Value → Value → Option Value
  save_plan_field name plan key x glue =
      if has_plan glue name plan
      then edit J "controllers" (edit J name (edit J "plans" (edit J plan (assign J key x)))) glue
      else none

  abbrev pub ensured_in : String → (Value → Option Value) → Value → Option Value
  ensured_in key change v = ensured J key v >>= edit J key change

  abbrev pub with_guns : Value → Option Value
  with_guns plan =
      if has (member plan "guns") && is_array (index J plan "guns")
      then some plan
      else assign J "guns" (array (four_guns true true)) plan

  abbrev pub gun_saved : Bool → List Value → Value → Option Value
  gun_saved enabled rows gun = do
    g1 ← assign J "enabled" (flag enabled) gun
    assign J "rows" (array rows) g1

  unfoldable pub save_gun_in : ℕ → Bool → List Value → Value → Option Value
  save_gun_in i enabled rows plan = do
    p1 ← with_guns plan
    if ltb i (length (elements (index J p1 "guns")))
        then edit J "guns" (edit_element J i (gun_saved enabled rows)) p1
        else some p1

  unfoldable pub save_gun : String → String → ℕ → Bool → List Value → Value → Option Value
  save_gun name plan i enabled rows =
      ensured_in "controllers"
        (ensured_in name (ensured_in "plans" (ensured_in plan (save_gun_in i enabled rows))))

-- `numbered prefix n` is `prefix + std::to_string(n)`.
module _ {D : Type 0} (J : GuiJson D) (numbered : String → ℕ → String) where
  open J use {editor, entries, size}
  open editor use {Value, member, text}

  -- The loop ends at the latest behind as many keys as there are.
  unfoldable pub new_controller_id : Value → Option String
  new_controller_id controllers =
      first_free (length (entries controllers) + 1)
        (λ n. has (member controllers (numbered "controller_" n))) 1
      >>= λ n. some (numbered "controller_" n)

  -- The settings with the new controller, and its key.
  unfoldable pub add_controller : String → Value → Option (String × Value)
  add_controller communication glue = do
    g1 ← ensured J "controllers" glue
    id ← new_controller_id (index J g1 "controllers")
    g2 ← assign J "activeController" (text id) g1
    g3 ← edit J "controllers" (assign J id (new_controller J communication)) g2
    some (id, g3)

  unfoldable pub new_plan_id : List ℕ → Value → Option String
  new_plan_id draws plans =
      drawn_free (λ n. has (member plans (numbered "plan_" n))) ((size plans + 1) ∷ draws) >>= λ n.
      some (numbered "plan_" n)

  -- `draws` are the results of `std::rand`.
  unfoldable pub add_plan : List ℕ → String → Value → Option (String × Value)
  add_plan draws name glue =
      if has_controller J glue name
      then (do
        g1 ← edit J "controllers" (edit J name (ensured J "plans")) glue
        id ← new_plan_id draws (index J (index J (index J g1 "controllers") name) "plans")
        g2 ← edit J "controllers" (edit J name (plan_added J id)) g1
        some (id, g2))
      else none
