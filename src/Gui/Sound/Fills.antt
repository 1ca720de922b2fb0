-- ===== src/Gui/Sound/Fills.antt =====
-- The whole filling of the glue tab, and what it makes of the box of controllers.
use machine_controller.Base.{
  ℕ, ◌≡◌, refl, sym, ap, ◌∙◌, Bool, true, false, ◌||◌, List, [], ◌∷◌, String, Option, none, some,
  if_cases, arith, ◌⊎◌, inl, inr,
}
use machine_controller.Base.Options.{◌>>=◌, some_inj}
use machine_controller.Config.Defaults.{has}
use machine_controller.Gui.Filling.{
  add_controller_items, choose_controller, add_plan_items, plan_entries, choose_plan, show_items,
  show_plans, show_controller, show_controller_of, controller_in, show_controller_fields,
  post_setup, select_controller, load_controller, fill_items, fill_sections, fill_settings,
  fill_glue_tab,
}
use machine_controller.Gui.Json.{GuiJson, IsGuiJson}
use machine_controller.Gui.Loading.{load_plan}
use machine_controller.Gui.Sound.Boxes.{
  IsHeld, add_controller_items-IsHeld, choose_controller-items, choose_controller-current,
}
use machine_controller.Gui.Sound.Filled.{still, load_plan-FollowsTab}
use machine_controller.Gui.Sound.Windows.{
  ActiveIn, KnownIn, FollowsTab, FollowsTab-refl, FollowsTab-trans,
}
use machine_controller.Gui.Store.Kept.{controller_of}
use machine_controller.Gui.Window.{
  Combo, Window, Qt, nth, glue_settings, cleared, current_item, data_of,
}
use mathlib.Core.Path.{subst}
use text.Mathlib.Text.{◌==◌ as str_eq}

module _ {D : Type 0} (J : GuiJson D) where
  open J use {editor}
  open editor use {Value}

  -- The active controller, if one is named, is in the settings, and the box of controllers holds keys of
  -- controllers in the settings, one of which is selected unless it is empty.
  pub record IsSound (w : Window Value D) : Type 0 where
    pub active : ActiveIn J w.settings
    pub box : IsHeld (KnownIn J w.settings) w.tab.controllers.items
    pub chosen : (has w.tab.controllers.current ≡ true) ⊎ (w.tab.controllers.items ≡ [])

  pub FollowsTab-IsSound : (w w' : Window Value D) → FollowsTab J w w' → IsSound w → IsSound w'
  FollowsTab-IsSound w w' f s = record {
    active = f.settings.active s.active;
    box = λ i item e.
        f.settings.keys item.1 (s.box i item (ap (λ (c : Combo). nth c.items i) (sym f.box) ∙ e));
    chosen = subst (λ (c : Combo). (has c.current ≡ true) ⊎ (c.items ≡ [])) (sym f.box) s.chosen;
  }

module _ {D : Type 0} (J : GuiJson D) (laws : IsGuiJson J) (Q : Qt D) where
  open J use {editor, entries}
  open editor use {Value, member, object, is_object}

  show_items-FollowsTab :
      (c : Value) (plans : Combo) (items : List (String × String)) (w : Window Value D)
      → FollowsTab J w (show_items J Q c plans items w)
  show_items-FollowsTab c plans [] w = still J laws Q w _ refl refl
  show_items-FollowsTab c plans (item ∷ rest) w =
      let i : ℕ = choose_plan J Q c plans in
      let chosen : Combo = record plans { current = some i } in
      let w1 : Window Value D = record w {
        plan_name = data_of (current_item chosen);
        tab = record w.tab { plans = chosen };
      } in
      FollowsTab-trans J w w1 (load_plan J Q i w1) (still J laws Q w w1 refl refl)
        (load_plan-FollowsTab J laws Q i w1)

  show_plans-FollowsTab : (c : Value) (w : Window Value D) → FollowsTab J w (show_plans J Q c w)
  unfolding show_plans
  show_plans-FollowsTab c w =
      let made : Combo × Bool = add_plan_items J Q (plan_entries J Q (member c "plans")) cleared in
      let filled : Window Value D = record w { tab = record w.tab { plans = made.0 } } in
      if_cases (λ v. FollowsTab J w v) made.1
        (λ _.
          FollowsTab-trans J w filled (show_items J Q c made.0 made.0.items filled)
            (still J laws Q w filled refl refl)
            (show_items-FollowsTab c made.0 made.0.items filled))
        (λ _. still J laws Q w filled refl refl)

  show_controller-FollowsTab :
      (m : Option Value) (w : Window Value D) → FollowsTab J w (show_controller J Q m w)
  unfolding show_controller_fields
  show_controller-FollowsTab none w = still J laws Q w _ refl refl
  show_controller-FollowsTab (some c) w =
      let w1 : Window Value D = record w { tab = show_controller_fields J Q c w.tab } in
      FollowsTab-trans J w w1 (show_plans J Q c w1) (still J laws Q w w1 refl refl)
        (show_plans-FollowsTab c w1)

  show_controller_of-FollowsTab :
      (m : Option Value) (w : Window Value D) → FollowsTab J w (show_controller_of J Q m w)
  show_controller_of-FollowsTab none w = FollowsTab-refl J w
  show_controller_of-FollowsTab (some glue) w =
      show_controller-FollowsTab (controller_in J Q glue w.controller_name) w

  post_setup-FollowsTab :
      (w v : Window Value D) → FollowsTab J w v → FollowsTab J w (post_setup J Q v)
  post_setup-FollowsTab w v f =
      if_cases (λ u. FollowsTab J w u) (str_eq v.controller_name "" || v.is_initializing) (λ _. f)
        (λ _. record { settings = f.settings; box = f.box })

  select_controller-FollowsTab :
      (m : Option (String × String)) (w : Window Value D)
      → FollowsTab J w (select_controller J Q m w)
  select_controller-FollowsTab none w = still J laws Q w _ refl refl
  select_controller-FollowsTab (some item) w =
      let w1 : Window Value D = record w { controller_name = item.1; is_refreshing = true } in
      let m1 : Option Value = glue_settings J w1.settings in
      let f = show_controller_of-FollowsTab m1 w1 in
      post_setup-FollowsTab w (record (show_controller_of J Q m1 w1) { is_refreshing = false })
        (record { settings = f.settings; box = f.box })

  load_controller-FollowsTab : (w : Window Value D) → FollowsTab J w (load_controller J Q w)
  unfolding load_controller
  load_controller-FollowsTab w =
      if_cases (λ v. FollowsTab J w v) (str_eq w.controller_name "") (λ _. FollowsTab-refl J w)
        (λ _. select_controller-FollowsTab (current_item w.tab.controllers) w)

  fill_items-IsSound :
      (glue : Value) (combo : Combo) (items : List (String × String)) (w : Window Value D)
      → IsHeld (KnownIn J w.settings) combo.items
      → IsSound J w
      → IsSound J (fill_items J Q glue combo items w)
  fill_items-IsSound glue combo [] w held s = s
  fill_items-IsSound glue combo (item ∷ rest) w held s =
      let chosen : Combo = choose_controller J Q glue combo in
      let w1 : Window Value D = record w {
        controller_name = data_of (current_item chosen);
        tab = record w.tab { controllers = chosen };
      } in
      FollowsTab-IsSound J w1 (load_controller J Q w1) (load_controller-FollowsTab w1) (record {
        active = s.active;
        box =
            subst (IsHeld (KnownIn J w.settings)) (sym (choose_controller-items J Q glue combo))
              held;
        chosen = inl (choose_controller-current J Q glue combo);
      })

  fill_sections-IsSound :
      (glue : Value) (m : Option Value) (w : Window Value D)
      → glue_settings J w.settings ≡ some glue
      → member glue "controllers" ≡ m
      → IsSound J w
      → IsSound J (fill_sections J Q glue m w)
  fill_sections-IsSound glue none w r e s = s
  fill_sections-IsSound glue (some cs) w r e s =
      if_cases (IsSound J) (is_object cs)
        (λ o.
          let combo : Combo = add_controller_items J Q (entries cs) cleared in
          fill_items-IsSound glue combo combo.items _
            (add_controller_items-IsHeld J Q (KnownIn J w.settings) (entries cs) cleared
              (λ key there v read.
                ap (λ g. has (controller_of J g key)) (some_inj v glue (sym read ∙ r))
                ∙ ap (λ m. has (m >>= λ u. member u key)) e
                ∙ ap has (sym (laws.entries_member cs key o))
                ∙ there)
              (λ i item no. absurd (ground (arith, no))))
            (record { active = s.active; box = s.box; chosen = s.chosen }))
        (λ _. s)

  fill_settings-IsSound :
      (m : Option Value) (w : Window Value D)
      → glue_settings J w.settings ≡ m
      → IsSound J w
      → IsSound J (fill_settings J Q m w)
  fill_settings-IsSound none w r s = s
  fill_settings-IsSound (some glue) w r s =
      fill_sections-IsSound glue (member glue "controllers") w r refl s

  pub fill_glue_tab-IsSound :
      (w : Window Value D) → ActiveIn J w.settings → IsSound J (fill_glue_tab J Q w)
  unfolding fill_glue_tab
  fill_glue_tab-IsSound w a =
      let empty : Window Value D = record w {
        is_refreshing = true;
        tab = record w.tab { controllers = cleared; plans = cleared; rows = [] };
      } in
      let s = fill_settings-IsSound (glue_settings J w.settings) empty refl (record {
        active = a;
        box = λ i item no. absurd (ground (arith, no));
        chosen = inr refl;
      }) in
      record { active = s.active; box = s.box; chosen = s.chosen }
