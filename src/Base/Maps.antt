-- ===== src/Base/Maps.antt =====
-- `std::unordered_map<std::string, V>` as an association list.
use machine_controller.Base.{
  ◌≡◌, refl, List, [], ◌∷◌, Option, none, some, String, arith, if◌then◌else◌,
}
use text.Mathlib.Text.{◌==◌}
use text.Mathlib.TextEquality.{eq_iff}

abbrev pub Map {ℓ} : Type ℓ → Type ℓ
Map V = List (String × V)

module _ {ℓ} {V : Type ℓ} where
  -- `find`: the value of a key, if it has one.
  unfoldable pub lookup : String → Map V → Option V
  lookup name [] = none
  lookup name ((key, value) ∷ rest) = if key == name then some value else lookup name rest

  -- `m[k] = v`
  unfoldable pub insert : String → V → Map V → Map V
  insert name new [] = (name, new) ∷ []
  insert name new ((key, value) ∷ rest) =
      if key == name then (name, new) ∷ rest else (key, value) ∷ insert name new rest

  -- What a later look at any key sees.
  pub lookup-insert :
      (name other : String) (new : V) (entries : Map V)
      → lookup other (insert name new entries)
        ≡ (if name == other then some new else lookup other entries)
  unfolding lookup insert
  lookup-insert name other new [] = refl
  lookup-insert name other new ((key, value) ∷ rest) =
      let ih = lookup-insert name other new rest in
      ground (arith, eq_iff name other, eq_iff key name, eq_iff key other, ih)
