-- ===== src/Gui/Sound/Boxes.antt =====
-- The keys that the box of controllers holds.
use machine_controller.Base.{
  ℕ, zero, suc, ◌≡◌, refl, true, ◌++◌, List, [], ◌∷◌, String, Option, none, some, if_cases, arith,
  ◌⊎◌, inl, inr, if◌then◌else◌,
}
use machine_controller.Base.Maps.{lookup}
use machine_controller.Base.Options.{◌>>=◌, some_inj}
use machine_controller.Config.Defaults.{has}
use machine_controller.Gui.Filling.{
  add_controller_items, choose_controller, first_if_none, text_member,
}
use machine_controller.Gui.Json.{GuiJson}
use machine_controller.Gui.Json.Laws.{str_eq_self}
use machine_controller.Gui.Window.{Combo, Qt, nth, current_item, data_of, add_item, find_data}
use mathlib.Core.Path.{subst}
use text.Mathlib.Text.{◌==◌ as str_eq}

-- A predicate holds of the data of every item.
abbrev pub IsHeld : (String → Type 0) → List (String × String) → Type 0
IsHeld P items = (i : ℕ) (item : String × String) → nth items i ≡ some item → P item.1

IsHeld-added :
    (P : String → Type 0) (items : List (String × String)) (item : String × String)
    → IsHeld P items
    → P item.1
    → IsHeld P (items ++ (item ∷ []))
IsHeld-added P [] item held p zero found e = subst (λ x. P x.1) (some_inj item found e) p
IsHeld-added P [] item held p (suc i) found e = absurd (ground (arith, e))
IsHeld-added P (x ∷ rest) item held p zero found e = held zero found e
IsHeld-added P (x ∷ rest) item held p (suc i) found e =
    IsHeld-added P rest item (λ j. held (suc j)) p i found e

-- The key of the current item, if there is one.
pub current-IsHeld :
    (P : String → Type 0) (box : Combo)
    → IsHeld P box.items
    → (data_of (current_item box) ≡ "") ⊎ P (data_of (current_item box))
current-IsHeld P box held = split box.current
  where
    item_of :
        (i : ℕ) (m : Option (String × String))
        → nth box.items i ≡ m
        → (data_of m ≡ "") ⊎ P (data_of m)
    item_of i none e = inl refl
    item_of i (some item) e = inr (held i item e)

    split :
        (m : Option ℕ) → (data_of (m >>= nth box.items) ≡ "") ⊎ P (data_of (m >>= nth box.items))
    split none = inl refl
    split (some i) = item_of i (nth box.items i) refl

module _ {D : Type 0} (J : GuiJson D) (Q : Qt D) where
  open J use {editor}
  open editor use {Value, is_object}

  pub add_controller_items-IsHeld :
      (P : String → Type 0) (es : List (String × Value)) (c : Combo)
      → ((key : String) → has (lookup key es) ≡ true → P key)
      → IsHeld P c.items
      → IsHeld P (add_controller_items J Q es c).items
  unfolding add_controller_items add_item lookup
  add_controller_items-IsHeld P [] c all held = held
  add_controller_items-IsHeld P ((key, controller) ∷ rest) c all held =
      add_controller_items-IsHeld P rest _
        (λ k there.
          all k
            (if_cases (λ (m : Option Value). has m ≡ true) (str_eq key k) (λ _. refl) (λ _. there)))
        (if_cases (λ (box : Combo). IsHeld P box.items) (is_object controller)
          (λ _. IsHeld-added P c.items _ held (
            all key (
              if_cases (λ (m : Option Value). has m ≡ true) (str_eq key key) (λ _. refl)
                (λ no. absurd (ground (arith, str_eq_self key, no))))))
          (λ _. held))

  pub choose_controller-items :
      (glue : Value) (c : Combo) → (choose_controller J Q glue c).items ≡ c.items
  unfolding choose_controller
  choose_controller-items glue c = same (
      text_member J Q glue "activeController" >>= λ active.
      if str_eq active "" then none else find_data active c)
    where
      same : (m : Option ℕ) → (first_if_none J Q m c).items ≡ c.items
      same none = refl
      same (some i) = refl

  pub choose_controller-current :
      (glue : Value) (c : Combo) → has (choose_controller J Q glue c).current ≡ true
  unfolding choose_controller
  choose_controller-current glue c = chosen (
      text_member J Q glue "activeController" >>= λ active.
      if str_eq active "" then none else find_data active c)
    where
      chosen : (m : Option ℕ) → has (first_if_none J Q m c).current ≡ true
      chosen none = refl
      chosen (some i) = refl
