-- ===== src/Gui/Sound/Changes.antt =====
-- The changes of the glue settings, one by one: the controllers and the active one.
use machine_controller.Base.{
  ℕ, ◌≡◌, refl, ap, ◌∙◌, Bool, true, List, String, Option, none, some, inr, if◌then◌else◌,
}
use machine_controller.Base.Options.{◌>>=◌, >>=-eq-some, some_inj}
use machine_controller.Config.Defaults.{has}
use machine_controller.Gui.Json.{GuiJson, IsGuiJson, assign, edit, ensured, index}
use machine_controller.Gui.Json.Laws.{
  guarded, edit-put, put_member_self, assign-put, put_member_other,
}
use machine_controller.Gui.Sound.Keys.{
  KeysKept, Next, edit-KeysKept, assign-KeysKept, ensured-KeysKept, edit-Next, ensured-Next,
  assign-Next, Next-trans, assign-active, assign-controllers, named-IsActiveThere,
}
use machine_controller.Gui.Store.{
  ControllerFields, has_controller, save_active_plan, save_field, save_controller, put_fields,
  add_controller, new_controller, new_controller_id, add_plan, new_plan_id, plan_added, remove_plan,
  rename_plan, save_plan_field, save_gun, ensured_in, save_gun_in, has_plan,
}
use machine_controller.Gui.Store.Kept.{controller_of}

module _ {D : Type 0} (J : GuiJson D) (laws : IsGuiJson J) where
  open J use {editor}
  open editor use {Value, member, is_object, text}

  -- A change that leads from settings to a next form of them.
  abbrev pub Keeps : (Value → Option Value) → Type 0
  Keeps change = (glue glue' : Value) → change glue ≡ some glue' → Next J glue glue'

  one-Keeps :
      (name : String) (change : Value → Option Value)
      → Keeps (edit J "controllers" (edit J name change))
  one-Keeps name change glue glue' h =
      edit-Next J laws (edit J name change) glue glue' (edit-KeysKept J laws name change) h

  pub guarded-Keeps :
      (test : Value → Bool) (name : String) (change : Value → Option Value)
      → Keeps (λ glue. if test glue then edit J "controllers" (edit J name change) glue else none)
  guarded-Keeps test name change glue glue' h =
      one-Keeps name change glue glue' (guarded (test glue) _ glue' h).1

  pub save_active_plan-Keeps : (name plan : String) → Keeps (save_active_plan J name plan)
  unfolding save_active_plan
  save_active_plan-Keeps name plan = guarded-Keeps (λ glue. has_controller J glue name) name _

  pub save_field-Keeps : (name key : String) (x : Value) → Keeps (save_field J name key x)
  unfolding save_field
  save_field-Keeps name key x = guarded-Keeps (λ glue. has_controller J glue name) name _

  pub save_plan_field-Keeps :
      (name plan key : String) (x : Value) → Keeps (save_plan_field J name plan key x)
  unfolding save_plan_field
  save_plan_field-Keeps name plan key x = guarded-Keeps (λ glue. has_plan J glue name plan) name _

  pub remove_plan-Keeps : (name plan : String) → Keeps (remove_plan J name plan)
  unfolding remove_plan
  remove_plan-Keeps name plan = guarded-Keeps (λ glue. has_plan J glue name plan) name _

  pub rename_plan-Keeps : (name plan typed : String) → Keeps (rename_plan J name plan typed)
  unfolding rename_plan
  rename_plan-Keeps name plan typed = guarded-Keeps (λ glue. has_plan J glue name plan) name _

  pub plan_put-Keeps :
      (name plan : String) (made : Value)
      → Keeps (edit J "controllers" (edit J name (edit J "plans" (assign J plan made))))
  plan_put-Keeps name plan made = one-Keeps name (edit J "plans" (assign J plan made))

  ensured_in-KeysKept :
      (key : String) (change : Value → Option Value) (v r : Value)
      → ensured_in J key change v ≡ some r
      → KeysKept J v r
  ensured_in-KeysKept key change v r h name there =
      let (u, (e, f)) = >>=-eq-some (ensured J key v) (edit J key change) r h in
      edit-KeysKept J laws key change u r f name (ensured-KeysKept J laws key v u e name there)

  pub save_gun-Keeps :
      (name plan : String) (i : ℕ) (enabled : Bool) (rows : List Value)
      → Keeps (save_gun J name plan i enabled rows)
  unfolding save_gun
  save_gun-Keeps name plan i enabled rows glue glue' h =
      let inner =
        ensured_in J name
          (ensured_in J "plans" (ensured_in J plan (save_gun_in J i enabled rows))) in
      let (u, (e, f)) =
        >>=-eq-some (ensured J "controllers" glue) (edit J "controllers" inner) glue' h in
      Next-trans J laws glue u glue' (ensured-Next J laws glue u e)
        (edit-Next J laws inner u glue' (ensured_in-KeysKept name _) f)

  pub add_plan-Next :
      (numbered : String → ℕ → String) (draws : List ℕ) (name id : String) (glue glue' : Value)
      → add_plan J numbered draws name glue ≡ some (id, glue')
      → Next J glue glue'
  unfolding add_plan
  add_plan-Next numbered draws name id glue glue' h =
      let (t, h1) = guarded (has_controller J glue name) _ (id, glue') h in
      let (g1, (e1, h2)) =
        >>=-eq-some (edit J "controllers" (edit J name (ensured J "plans")) glue) _ (id, glue')
          h1 in
      let (k, (e2, h3)) =
        >>=-eq-some
          (new_plan_id J numbered draws (index J (index J (index J g1 "controllers") name) "plans"))
          _ (id, glue') h2 in
      let (g2, (e3, h4)) =
        >>=-eq-some (edit J "controllers" (edit J name (plan_added J k)) g1) _ (id, glue') h3 in
      let same : g2 ≡ glue' = ap (λ r. r.1) (some_inj (k, g2) (id, glue') h4) in
      let first = one-Keeps name (ensured J "plans") glue g1 e1 in
      Next-trans J laws glue g1 glue' first
        (one-Keeps name (plan_added J k) g1 glue' (e3 ∙ ap some same))

  -- A controller that is stored is there.
  edit-there :
      (name : String) (change : Value → Option Value) (glue glue' : Value)
      → edit J "controllers" (edit J name change) glue ≡ some glue'
      → has (controller_of J glue' name) ≡ true
  edit-there name change glue glue' h =
      let (x, (s, (changed, made))) =
        edit-put J laws "controllers" (edit J name change) glue glue' h in
      let (c, (t, (c_made, x_made))) =
        edit-put J laws name change (index J glue "controllers") x changed in
      ap (λ u. has (controller_of J u name)) made
      ∙ (ap (λ m. has (m >>= λ v. member v name)) (put_member_self J laws glue "controllers" x s)
          ∙ (ap (λ v. has (member v name)) x_made
              ∙ ap has (put_member_self J laws (index J glue "controllers") name c t)))

  pub save_controller-Keeps :
      (name : String) (t : ControllerFields D) → Keeps (save_controller J name t)
  unfolding save_controller
  save_controller-Keeps name t glue glue' h =
      let (g1, (e1, h1)) = >>=-eq-some (ensured J "controllers" glue) _ glue' h in
      let (g2, (e2, h2)) =
        >>=-eq-some (edit J "controllers" (edit J name (put_fields J t)) g1) _ glue' h1 in
      let first = ensured-Next J laws glue g1 e1 in
      Next-trans J laws glue g1 glue' first (
        Next-trans J laws g1 g2 glue' (one-Keeps name (put_fields J t) g1 g2 e2)
          (assign-Next J laws name g2 glue' (inr (edit-there name (put_fields J t) g1 g2 e2)) h2))

  -- The active controller is named first, and put then.
  put_last :
      (communication k : String) (g1 g2 g3 glue : Value)
      → Next J glue g1
      → assign J "activeController" (text k) g1 ≡ some g2
      → edit J "controllers" (assign J k (new_controller J communication)) g2 ≡ some g3
      → Next J glue g3
  put_last communication k g1 g2 g3 glue first e3 e4 =
      let new = new_controller J communication in
      let last = edit-Next J laws (assign J k new) g2 g3 (assign-KeysKept J laws k new) e4 in
      let (x, (s, (changed, made))) = edit-put J laws "controllers" (assign J k new) g2 g3 e4 in
      let (t, x_made) = assign-put J laws k new (index J g2 "controllers") x changed in
      let there : has (controller_of J g3 k) ≡ true =
        ap (λ u. has (controller_of J u k)) made
        ∙ (ap (λ m. has (m >>= λ v. member v k)) (put_member_self J laws g2 "controllers" x s)
            ∙ (ap (λ v. has (member v k)) x_made
                ∙ ap has (put_member_self J laws (index J g2 "controllers") k new t))) in
      let active : (member g3 "activeController" >>= J.get_text) ≡ some k =
        ap (λ m. m >>= J.get_text)
          (ap (λ u. member u "activeController") made
            ∙ put_member_other J laws g2 "controllers" "activeController" x s refl)
        ∙ assign-active J laws k g1 g2 e3 in
      record {
        object = last.object;
        keys = λ name h.
            last.keys name
              (ap has (assign-controllers J laws (text k) g1 g2 name e3) ∙ first.keys name h);
        active = λ _. named-IsActiveThere J laws k g3 active (inr there);
      }

  pub add_controller-Next :
      (numbered : String → ℕ → String) (communication id : String) (glue glue' : Value)
      → add_controller J numbered communication glue ≡ some (id, glue')
      → Next J glue glue'
  unfolding add_controller
  add_controller-Next numbered communication id glue glue' h =
      let (g1, (e1, h1)) = >>=-eq-some (ensured J "controllers" glue) _ (id, glue') h in
      let (k, (e2, h2)) =
        >>=-eq-some (new_controller_id J numbered (index J g1 "controllers")) _ (id, glue') h1 in
      let (g2, (e3, h3)) = >>=-eq-some (assign J "activeController" (text k) g1) _ (id, glue') h2 in
      let (g3, (e4, h4)) =
        >>=-eq-some (edit J "controllers" (assign J k (new_controller J communication)) g2) _
          (id, glue') h3 in
      let same : g3 ≡ glue' = ap (λ r. r.1) (some_inj (k, g3) (id, glue') h4) in
      put_last communication k g1 g2 glue' glue (ensured-Next J laws glue g1 e1) e3
        (e4 ∙ ap some same)
