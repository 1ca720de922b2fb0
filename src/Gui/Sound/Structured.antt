-- ===== src/Gui/Sound/Structured.antt =====
-- The slots that add and remove controllers, on sound windows.
use machine_controller.Base.{
  ℕ, ◌≡◌, refl, sym, ap, ◌∙◌, Bool, true, false, List, [], String, Bytes, Option, none, some,
  if_cases, arith, if◌then◌else◌, ◌⊎◌, inl, inr,
}
use machine_controller.Base.Options.{◌>>=◌, >>=-eq-some, some_inj}
use machine_controller.Config.Defaults.{has}
use machine_controller.Gui.Filling.{fill_glue_tab}
use machine_controller.Gui.Json.{GuiJson, IsGuiJson}
use machine_controller.Gui.Slots.{
  controller_selected, save_controller_slot, save_active_controller_slot,
}
use machine_controller.Gui.Sound.Changes.{add_controller-Next}
use machine_controller.Gui.Sound.Edits.{
  alike, filled-IsSound, save_controller-IsSound, controller_selected-IsSound,
}
use machine_controller.Gui.Sound.Fills.{IsSound, FollowsTab-IsSound, fill_glue_tab-IsSound}
use machine_controller.Gui.Sound.Keys.{Next, named-IsActiveThere, IsActiveThere}
use machine_controller.Gui.Sound.Windows.{ActiveIn, update-Follows}
use machine_controller.Gui.Store.{add_controller, remove_controller}
use machine_controller.Gui.Store.Kept.{controller_of}
use machine_controller.Gui.Store.Removed.{remove_controller-Removed}
use machine_controller.Gui.Structure.{
  same_index, set_if_found, reselect_controller, remove_controller_clicked, add_controller_clicked,
}
use machine_controller.Gui.Window.{
  Window, Qt, find_from, find_data, find_text, current_text, glue_settings, update_glue,
  save_to_file,
}
use machine_controller.Gui.Window.Stored.{glue_settings-update}
use machine_controller.Protocol.{Message}
use mathlib.Core.Path.{subst}
use text.Mathlib.Text.{◌==◌ as str_eq}

module _ {D : Type 0} (J : GuiJson D) (laws : IsGuiJson J) (Q : Qt D) where
  open J use {editor, get_text}
  open editor use {Value, member, text, is_object}

  pub put-IsSound :
      (w : Window Value D) (glue glue' : Value)
      → glue_settings J w.settings ≡ some glue
      → Next J glue glue'
      → IsSound J w
      → IsSound J (update_glue J glue' w)
  unfolding update_glue
  put-IsSound w glue glue' r n =
      FollowsTab-IsSound J w _
        (record { settings = update-Follows J laws w.settings glue glue' r n; box = refl })

  pub saved-IsSound : (w : Window Value D) → IsSound J w → IsSound J (save_to_file J w)
  unfolding save_to_file
  saved-IsSound w s =
      let w1 : Window Value D = record w { file = if w.writable then w.settings else w.file } in
      alike J laws Q w w1 refl refl s

  set_if_found-IsSound :
      (i : Option ℕ) (w : Window Value D) → IsSound J w → IsSound J (set_if_found J Q i w)
  set_if_found-IsSound none w s = s
  set_if_found-IsSound (some i) w s =
      if_cases (IsSound J) (same_index (some i) w.tab.controllers.current) (λ _. s)
        (λ _. controller_selected-IsSound J laws Q i w s)

  -- With no item selected nothing is stored, and the tab is filled.
  unselected-IsSound :
      (w : Window Value D)
      → ActiveIn J w.settings
      → str_eq w.controller_name "" ≡ false
      → IsSound J (controller_selected J Q none w)
  unfolding controller_selected save_active_controller_slot
  unselected-IsSound w a named =
      let w1 : Window Value D = record w {
        tab = record w.tab { controllers = record w.tab.controllers { current = none } };
      } in
      subst (λ b. IsSound J (if b then w1 else fill_glue_tab J Q w1)) (sym named)
        (fill_glue_tab-IsSound J laws Q w1 a)

  none_chosen :
      (c : Option ℕ) (items : List (String × String))
      → same_index none c ≡ true
      → (has c ≡ true) ⊎ (items ≡ [])
      → items ≡ []
  none_chosen none items e (inl h) = absurd (ground (arith, h))
  none_chosen (some i) items e (inl h) = absurd (ground (arith, e))
  none_chosen c items e (inr empty) = empty

  reselected-ActiveIn :
      (next : String) (w : Window Value D)
      → ActiveIn J w.settings
      → (has w.tab.controllers.current ≡ true) ⊎ (w.tab.controllers.items ≡ [])
      → w.controller_name ≡ next
      → ActiveIn J (reselect_controller J Q next w).settings
  unfolding find_from
  reselected-ActiveIn next w a chosen same =
      if_cases (λ (v : Window Value D). ActiveIn J v.settings) (str_eq next "") (λ _. a)
        (λ named. split named (same_index none w.tab.controllers.current) refl)
    where
      reindexed : Bool → Window Value D
      reindexed b = if b then w else controller_selected J Q none w

      split :
          str_eq next "" ≡ false
          → (b : Bool) → same_index none w.tab.controllers.current ≡ b
          → ActiveIn J
              (set_if_found J Q
                (find_text next (reindexed b).tab.controllers)
                (reindexed b)).settings
      split named true e =
          subst
            (λ (items : List (String × String)).
              ActiveIn J
                (set_if_found J Q (find_from (λ item. str_eq item.0 next) 0 items) w).settings)
            (sym (none_chosen w.tab.controllers.current w.tab.controllers.items e chosen)) a
      split named false e =
          (set_if_found-IsSound (find_text next (controller_selected J Q none w).tab.controllers) _
            (unselected-IsSound w a (ap (λ n. str_eq n "") same ∙ named))).active

  -- The settings without a controller name one that is left, or none.
  removed-IsActiveThere :
      (glue glue' : Value) (name next : String)
      → remove_controller J name glue ≡ some (next, glue')
      → (is_object glue' ≡ true) × IsActiveThere J glue'
  unfolding remove_controller
  removed-IsActiveThere glue glue' name next h = split (controller_of J glue name) refl
    where
      split :
          (m : Option Value)
          → controller_of J glue name ≡ m
          → (is_object glue' ≡ true) × IsActiveThere J glue'
      split none e = absurd (ground (arith, e, h))
      split (some c) e =
          let (n, (g, (made, r))) = remove_controller-Removed J laws glue c name e in
          let same = some_inj (n, g) (next, glue') (sym made ∙ h) in
          subst (λ p. (is_object p.1 ≡ true) × IsActiveThere J p.1) same
            (
              r.object,
              named-IsActiveThere J laws n g (ap (λ m. m >>= get_text) r.active ∙ laws.text_get n)
                  r.next_known,
            )

  pub remove_controller-IsSound :
      (w : Window Value D) → IsSound J w → IsSound J (remove_controller_clicked J Q w)
  unfolding remove_controller_clicked update_glue save_to_file
  remove_controller-IsSound w s =
      if_cases (IsSound J) (str_eq w.controller_name "") (λ _. s)
        (λ _. split (glue_settings J w.settings >>= remove_controller J w.controller_name) refl)
    where
      removed : String → Value → Window Value D
      removed next glue = record (save_to_file J (update_glue J glue w)) {
        controller_name = next;
        plan_name = "";
      }

      split :
          (m : Option (String × Value))
          → (glue_settings J w.settings >>= remove_controller J w.controller_name) ≡ m
          → IsSound J (elim m [
            | none ↦ w
            | some (next, glue) ↦
                fill_glue_tab J Q (reselect_controller J Q next (removed next glue))
          ])
      split none e = s
      split (some (next, glue')) e =
          let (glue, (r, h)) =
            >>=-eq-some (glue_settings J w.settings) (remove_controller J w.controller_name)
              (next, glue') e in
          let (o, there) = removed-IsActiveThere glue glue' w.controller_name next h in
          let read = glue_settings-update J laws w.settings glue' glue r o in
          fill_glue_tab-IsSound J laws Q _ (
            reselected-ActiveIn next (removed next glue')
              (λ v f. subst (IsActiveThere J) (some_inj glue' v (sym read ∙ f)) there) s.chosen
              refl)

  module _ (dump : Message D → Option Bytes) (numbered : String → ℕ → String) where
    pub add_controller-IsSound :
        (w : Window Value D) → IsSound J w → IsSound J (add_controller_clicked J Q dump numbered w)
    unfolding add_controller_clicked
    add_controller-IsSound w s =
        split
          (glue_settings J w1.settings
            >>= add_controller J numbered (current_text w1.tab.communications))
          refl
      where
        w1 : Window Value D
        w1 = if str_eq w.controller_name "" then w else save_controller_slot J Q dump w

        s1 : IsSound J w1
        s1 =
            if_cases (IsSound J) (str_eq w.controller_name "") (λ _. s)
              (λ _. save_controller-IsSound J laws Q dump w s)

        split :
            (m : Option (String × Value))
            → (glue_settings J w1.settings
                >>= add_controller J numbered (current_text w1.tab.communications))
              ≡ m
            → IsSound J (elim m [
              | none ↦ w1
              | some (id, glue) ↦
                  let filled : Window Value D =
                    fill_glue_tab J Q (save_to_file J (update_glue J glue w1)) in
                  set_if_found J Q (find_data id filled.tab.controllers) filled
            ])
        split none e = s1
        split (some (id, glue')) e =
            let (glue, (r, h)) = >>=-eq-some (glue_settings J w1.settings) _ (id, glue') e in
            let next =
              add_controller-Next J laws numbered (current_text w1.tab.communications) id glue glue'
                h in
            set_if_found-IsSound _ _
              (filled-IsSound J laws Q _ (saved-IsSound _ (put-IsSound w1 glue glue' r next s1)))
