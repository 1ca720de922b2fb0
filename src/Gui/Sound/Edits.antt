-- ===== src/Gui/Sound/Edits.antt =====
-- What the slots of the glue tab are made of, on sound windows.
use machine_controller.Base.{
  ℕ, zero, suc, ◌≡◌, refl, ◌||◌, String, Bytes, Option, none, some, if_cases, inl, inr,
  if◌then◌else◌,
}
use machine_controller.Gui.Filling.{fill_glue_tab}
use machine_controller.Gui.Json.{GuiJson, IsGuiJson, assign}
use machine_controller.Gui.Loading.{or_same}
use machine_controller.Gui.Slots.{
  save_active_controller_slot, save_active_plan_slot, controller_selected, shown_fields, row_values,
  and_send, save_controller_slot, field_slot, save_gun_slot, gun_selected,
}
use machine_controller.Gui.Sound.Boxes.{current-IsHeld}
use machine_controller.Gui.Sound.Changes.{
  Keeps, save_active_plan-Keeps, save_field-Keeps, save_gun-Keeps, save_controller-Keeps,
}
use machine_controller.Gui.Sound.Filled.{still, load_gun-FollowsTab}
use machine_controller.Gui.Sound.Fills.{IsSound, FollowsTab-IsSound, fill_glue_tab-IsSound}
use machine_controller.Gui.Sound.Keys.{assign-Next}
use machine_controller.Gui.Sound.Windows.{KnownIn, KeepsAt, stored-FollowsTab, or_same-FollowsTab}
use machine_controller.Gui.Store.{
  save_active_controller, save_active_plan, save_controller, save_field, save_gun,
}
use machine_controller.Gui.Window.{
  Window, Qt, current_item, data_of, stored, send_active, send_times,
}
use machine_controller.Protocol.{Message}
use text.Mathlib.Text.{◌==◌ as str_eq}

module _ {D : Type 0} (J : GuiJson D) (laws : IsGuiJson J) (Q : Qt D) where
  open J use {editor, double, ratio}
  open editor use {Value, text, int, flag}

  pub alike :
      (w w' : Window Value D)
      → w'.settings ≡ w.settings
      → w'.tab.controllers ≡ w.tab.controllers
      → IsSound J w
      → IsSound J w'
  alike w w' s b = FollowsTab-IsSound J w w' (still J laws Q w w' s b)

  pub send_active-IsSound :
      (dump : Message D → Option Bytes) (w : Window Value D)
      → IsSound J w
      → IsSound J (send_active J dump w)
  unfolding send_active
  send_active-IsSound dump w s =
      if_cases (IsSound J) w.is_refreshing (λ _. s) (λ _. alike w _ refl refl s)

  pub filled-IsSound : (w : Window Value D) → IsSound J w → IsSound J (fill_glue_tab J Q w)
  filled-IsSound w s = fill_glue_tab-IsSound J laws Q w s.active

  -- What a slot does unless the tab is filled or no controller is named.
  pub selected-IsSound :
      (w v : Window Value D)
      → (IsSound J w → IsSound J v)
      → IsSound J w
      → IsSound J (if w.is_refreshing || str_eq w.controller_name "" then w else v)
  selected-IsSound w v f s =
      if_cases (IsSound J) (w.is_refreshing || str_eq w.controller_name "") (λ _. s) (λ _. f s)

  pub when_plan-IsSound :
      (w v : Window Value D)
      → (IsSound J w → IsSound J v)
      → IsSound J w
      → IsSound J (
          if w.is_refreshing || str_eq w.controller_name ""
          then w
          else (if str_eq w.plan_name "" then w else v))
  when_plan-IsSound w v f =
      selected-IsSound w _ (λ s. if_cases (IsSound J) (str_eq w.plan_name "") (λ _. s) (λ _. f s))

  pub stored-IsSound :
      (change : Value → Option Value) (w v : Window Value D)
      → KeepsAt J laws w.settings change
      → stored J change w ≡ some v
      → IsSound J w
      → IsSound J v
  stored-IsSound change w v k e = FollowsTab-IsSound J w v (stored-FollowsTab J laws change w v k e)

  pub or_same-IsSound :
      (change : Value → Option Value) (w : Window Value D)
      → KeepsAt J laws w.settings change
      → IsSound J w
      → IsSound J (or_same w (stored J change w))
  or_same-IsSound change w k = FollowsTab-IsSound J w _ (or_same-FollowsTab J laws change w k)

  -- What follows a stored change.
  pub after-IsSound :
      (change : Value → Option Value) (w : Window Value D) (next : Window Value D → Window Value D)
      → Keeps J laws change
      → ((v : Window Value D) → IsSound J v → IsSound J (next v))
      → IsSound J w
      → IsSound J (elim (stored J change w) [ none ↦ w | some v ↦ next v ])
  after-IsSound change w next k f s = split (stored J change w) refl
    where
      split :
          (m : Option (Window Value D))
          → stored J change w ≡ m
          → IsSound J (elim m [ none ↦ w | some v ↦ next v ])
      split none e = s
      split (some v) e = f v (stored-IsSound change w v (λ g g' r. k g g') e s)

  -- The controller that the box has selected is in the settings.
  pub save_active_controller-IsSound :
      (w : Window Value D) → IsSound J w → IsSound J (save_active_controller_slot J Q w)
  unfolding save_active_controller_slot save_active_controller
  save_active_controller-IsSound w s = split w.tab.controllers.current
    where
      change : Value → Option Value
      change = assign J "activeController" (text (data_of (current_item w.tab.controllers)))

      saved : KeepsAt J laws w.settings change
      saved glue glue' r =
          assign-Next J laws (data_of (current_item w.tab.controllers)) glue glue'
            (elim (current-IsHeld (KnownIn J w.settings) w.tab.controllers s.box) [
              | inl e ↦ inl e
              | inr known ↦ inr (known glue r)
            ])

      split :
          (m : Option ℕ) → IsSound J (elim m [ none ↦ w | some i ↦ or_same w (stored J change w) ])
      split none = s
      split (some i) = or_same-IsSound change w saved s

  pub save_active_plan-IsSound :
      (w : Window Value D) → IsSound J w → IsSound J (save_active_plan_slot J Q w)
  unfolding save_active_plan_slot
  save_active_plan-IsSound w s =
      if_cases (IsSound J) (str_eq w.controller_name "" || str_eq w.plan_name "") (λ _. s)
        (λ _.
          or_same-IsSound (save_active_plan J w.controller_name w.plan_name) w
            (λ g g' r. save_active_plan-Keeps J laws w.controller_name w.plan_name g g') s)

  pub controller_selected-IsSound :
      (i : ℕ) (w : Window Value D) → IsSound J w → IsSound J (controller_selected J Q (some i) w)
  unfolding controller_selected
  controller_selected-IsSound i w s =
      let w1 : Window Value D = record w {
        tab = record w.tab { controllers = record w.tab.controllers { current = some i } };
      } in
      let s1 : IsSound J w1 = record { active = s.active; box = s.box; chosen = inl refl } in
      if_cases (IsSound J) (str_eq w.controller_name "") (λ _. s1)
        (λ _. filled-IsSound _ (save_active_controller-IsSound w1 s1))

  pub gun_selected-IsSound :
      (i : ℕ) (w : Window Value D) → IsSound J w → IsSound J (gun_selected J Q i w)
  unfolding gun_selected
  gun_selected-IsSound i w s =
      let w1 : Window Value D = record w { tab = record w.tab { gun = some i } } in
      let s1 : IsSound J w1 = alike w w1 refl refl s in
      if_cases (IsSound J) w.is_refreshing (λ _. s1)
        (λ _. FollowsTab-IsSound J w1 _ (load_gun-FollowsTab J laws Q (some i) w1) s1)

  module _ (dump : Message D → Option Bytes) where
    pub send_times-IsSound :
        (n : ℕ) (w : Window Value D) → IsSound J w → IsSound J (send_times J dump n w)
    unfolding send_times
    send_times-IsSound zero w s = s
    send_times-IsSound (suc n) w s =
        send_times-IsSound n (send_active J dump w) (send_active-IsSound dump w s)

    pub and_send-IsSound :
        (change : Value → Option Value) (w : Window Value D)
        → Keeps J laws change
        → IsSound J w
        → IsSound J (and_send J Q dump w (stored J change w))
    and_send-IsSound change w k s = split (stored J change w) refl
      where
        split :
            (m : Option (Window Value D))
            → stored J change w ≡ m
            → IsSound J (and_send J Q dump w m)
        split none e = s
        split (some v) e =
            send_active-IsSound dump v (stored-IsSound change w v (λ g g' r. k g g') e s)

    pub save_controller-IsSound :
        (w : Window Value D) → IsSound J w → IsSound J (save_controller_slot J Q dump w)
    unfolding save_controller_slot
    save_controller-IsSound w = selected-IsSound w _ (
        after-IsSound (save_controller J w.controller_name (shown_fields J Q w.tab)) w
          (λ v. send_active J dump (fill_glue_tab J Q v))
          (save_controller-Keeps J laws w.controller_name (shown_fields J Q w.tab))
          (λ v s. send_active-IsSound dump _ (filled-IsSound v s)))

    pub field-IsSound :
        (key : String) (x : Value) (w : Window Value D)
        → IsSound J w
        → IsSound J (field_slot J Q dump key x w)
    field-IsSound key x w = selected-IsSound w _ (
        and_send-IsSound (save_field J w.controller_name key x) w
          (save_field-Keeps J laws w.controller_name key x))

    pub save_gun-IsSound : (w : Window Value D) → IsSound J w → IsSound J (save_gun_slot J Q dump w)
    unfolding save_gun_slot
    save_gun-IsSound w s =
        if_cases (IsSound J) (str_eq w.controller_name "" || str_eq w.plan_name "") (λ _. s)
          (λ _. split w.tab.gun)
      where
        saved : ℕ → Value → Option Value
        saved i =
            save_gun J w.controller_name w.plan_name i w.tab.gun_enabled (row_values J Q w.tab.rows)

        split :
            (m : Option ℕ)
            → IsSound J (elim m [ none ↦ w | some i ↦ and_send J Q dump w (stored J (saved i) w) ])
        split none = s
        split (some i) =
            and_send-IsSound (saved i) w
              (save_gun-Keeps J laws w.controller_name w.plan_name i w.tab.gun_enabled
                (row_values J Q w.tab.rows))
              s
