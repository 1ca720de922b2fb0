-- ===== src/Gui/Sound/Filled.antt =====
-- The filling of the glue tab with a controller, its plan and its gun: the box of controllers.
use machine_controller.Base.{
  ℕ, ◌≡◌, refl, sym, ap, Bool, true, false, ◌&&◌, [], String, Option, none, some, if_cases,
  if◌then◌else◌,
}
use machine_controller.Base.Int.{ℤ, pos}
use machine_controller.Base.Options.{◌>>=◌, >>=-eq-some, some_inj}
use machine_controller.Gui.Json.{GuiJson, IsGuiJson, value, assign, edit}
use machine_controller.Gui.Loading.{
  load_gun_rows, show_gun_of, show_gun, gun_at, load_gun, is_selected, plan_in, has_guns,
  default_guns, with_default_guns, show_guns, show_offset, show_made, show_plan, show_plan_of,
  select_plan, load_plan, plan_text_of,
}
use machine_controller.Gui.Sound.Changes.{plan_put-Keeps}
use machine_controller.Gui.Sound.Windows.{
  Follows, FollowsTab, FollowsTab-refl, FollowsTab-trans, stored-FollowsTab,
}
use machine_controller.Gui.Window.{Tab, Window, Qt, nth, glue_settings, stored}
use mathlib.Core.Path.{subst}
use text.Mathlib.Text.{◌==◌ as str_eq}

module _ {D : Type 0} (J : GuiJson D) (laws : IsGuiJson J) (Q : Qt D) where
  open J use {editor, get_flag, get_int}
  open editor use {Value, member, array}

  pub still :
      (w w' : Window Value D)
      → w'.settings ≡ w.settings
      → w'.tab.controllers ≡ w.tab.controllers
      → FollowsTab J w w'
  still w w' s b = record {
    settings =
        subst (λ x. Follows J w.settings x) (sym s) (record { active = λ a. a; keys = λ key k. k });
    box = b;
  }

  show_gun-box :
      (gun : Option Value) (tab : Tab D) → (show_gun J Q gun tab).controllers ≡ tab.controllers
  unfolding show_gun
  show_gun-box none tab = refl
  show_gun-box (some gun) tab = shown (value J get_flag gun "enabled" true)
    where
      shown :
          (m : Option Bool)
          → (let t : Tab D = elim m [
            | none ↦ tab
            | some enabled ↦ record tab { gun_enabled = enabled; rows = load_gun_rows J Q gun }
          ] in
              t.controllers)
            ≡ tab.controllers
      shown none = refl
      shown (some enabled) = refl

  show_gun_of-box :
      (m : Option Value) (i : Option ℕ) (tab : Tab D)
      → (show_gun_of J Q m i tab).controllers ≡ tab.controllers
  show_gun_of-box none i tab = refl
  show_gun_of-box (some plan) i tab = show_gun-box (gun_at J Q plan i) tab

  pub load_gun-FollowsTab : (i : Option ℕ) (w : Window Value D) → FollowsTab J w (load_gun J Q i w)
  unfolding load_gun
  load_gun-FollowsTab i w =
      if_cases (λ v. FollowsTab J w v)
        (is_selected J Q w.controller_name "Select Controller"
          && is_selected J Q w.plan_name "Select Plan")
        (λ _. still w _ refl (
          show_gun_of-box
            (glue_settings J w.settings >>= λ glue. plan_in J Q glue w.controller_name w.plan_name)
            i w.tab))
        (λ _. FollowsTab-refl J w)

  show_offset-box :
      (m : Option ℤ) (tab : Tab D) → (show_offset J Q m tab).controllers ≡ tab.controllers
  show_offset-box none tab = refl
  show_offset-box (some n) tab = refl

  show_guns-FollowsTab : (plan : Value) (w : Window Value D) → FollowsTab J w (show_guns J Q plan w)
  show_guns-FollowsTab plan w =
      FollowsTab-trans J w (load_gun J Q (some 0) w) (show_guns J Q plan w)
        (load_gun-FollowsTab (some 0) w)
        (still (load_gun J Q (some 0) w) (show_guns J Q plan w) refl (
          show_offset-box (value J get_int plan "sensorOffset" (pos 10))
            (record (load_gun J Q (some 0) w).tab { gun = some 0 })))

  with_default_guns-FollowsTab :
      (plan made : Value) (w w' : Window Value D)
      → with_default_guns J Q plan w ≡ some (made, w')
      → FollowsTab J w w'
  unfolding with_default_guns
  with_default_guns-FollowsTab plan made w w' h = split (has_guns J Q plan) h
    where
      changed : Value → Value → Option Value
      changed p =
          edit J "controllers" (edit J w.controller_name (edit J "plans" (assign J w.plan_name p)))

      split :
          (b : Bool)
          → (let r : Option (Value × Window Value D) =
                if b
                then some (plan, w)
                else (assign J "guns" (array (default_guns J Q)) plan >>= λ p.
                    stored J (changed p) w >>= λ v. some (p, v)) in
              r ≡ some (made, w'))
          → FollowsTab J w w'
      split true e =
          subst (FollowsTab J w) (ap (λ r. r.1) (some_inj (plan, w) (made, w') e))
            (FollowsTab-refl J w)
      split false e =
          let (p, (e1, e2)) =
            >>=-eq-some (assign J "guns" (array (default_guns J Q)) plan) _ (made, w') e in
          let (v, (e3, e4)) =
            >>=-eq-some (stored J (changed p) w) (λ u. some (p, u)) (made, w') e2 in
          subst (FollowsTab J w) (ap (λ r. r.1) (some_inj (p, v) (made, w') e4)) (
            stored-FollowsTab J laws (changed p) w v
              (λ g g' r. plan_put-Keeps J laws w.controller_name w.plan_name p g g') e3)

  show_made-FollowsTab :
      (plan : Value) (w : Window Value D)
      → FollowsTab J w (show_made J Q w (with_default_guns J Q plan w))
  show_made-FollowsTab plan w = split (with_default_guns J Q plan w) refl
    where
      split :
          (m : Option (Value × Window Value D))
          → with_default_guns J Q plan w ≡ m
          → FollowsTab J w (show_made J Q w m)
      split none e = FollowsTab-refl J w
      split (some (made, v)) e =
          FollowsTab-trans J w v (show_guns J Q made v)
            (with_default_guns-FollowsTab plan made w v e) (show_guns-FollowsTab made v)

  show_plan-FollowsTab :
      (m : Option Value) (w : Window Value D) → FollowsTab J w (show_plan J Q m w)
  unfolding show_plan
  show_plan-FollowsTab none w = still w _ refl refl
  show_plan-FollowsTab (some plan) w =
      let shown : Window Value D = record w {
        tab = record w.tab { plan_text = plan_text_of J Q plan; rows = [] };
      } in
      FollowsTab-trans J w shown (show_made J Q shown (with_default_guns J Q plan shown))
        (still w shown refl refl) (show_made-FollowsTab plan shown)

  show_plan_of-FollowsTab :
      (m : Option Value) (w : Window Value D) → FollowsTab J w (show_plan_of J Q m w)
  show_plan_of-FollowsTab none w = FollowsTab-refl J w
  show_plan_of-FollowsTab (some glue) w =
      show_plan-FollowsTab (plan_in J Q glue w.controller_name w.plan_name) w

  select_plan-FollowsTab :
      (m : Option (String × String)) (w : Window Value D) → FollowsTab J w (select_plan J Q m w)
  select_plan-FollowsTab none w = still w _ refl refl
  select_plan-FollowsTab (some item) w =
      let w1 : Window Value D = record w { plan_name = item.1; is_refreshing = true } in
      let f = show_plan_of-FollowsTab (glue_settings J w1.settings) w1 in
      record { settings = f.settings; box = f.box }

  pub load_plan-FollowsTab : (i : ℕ) (w : Window Value D) → FollowsTab J w (load_plan J Q i w)
  unfolding load_plan
  load_plan-FollowsTab i w =
      if_cases (λ v. FollowsTab J w v) (str_eq w.controller_name "") (λ _. FollowsTab-refl J w)
        (λ _. select_plan-FollowsTab (nth w.tab.plans.items i) w)
