-- ===== src/Config/Tree.antt =====
-- The JSON library, as the configuration uses it. A result `none` is an exception.
use machine_controller.Base.{◌≡◌, Bool, List, [], ◌∷◌, String, Option, none, some}
use machine_controller.Base.Int.{ℤ}
use machine_controller.Base.Maps.{lookup}

-- `value`, `value_int` and `value_text` are `v.value(key, default)`; `elements` is what a loop over `v`
-- visits, `entries` the keys and values of a loop with iterators; `at` is `v.at(key)`, and `get_text` the
-- conversion to a string.
pub record JsonTree : Type 1 where
  pub Value : Type 0
  pub object : Value
  pub array : Value
  pub value : Value → String → Value → Option Value
  pub value_int : Value → String → ℤ → Option ℤ
  pub value_text : Value → String → String → Option String
  pub elements : Value → List Value
  pub entries : Value → Option (List (String × Value))
  pub contains : Value → String → Bool
  pub at : Value → String → Option Value
  pub get_text : Value → Option String

-- No key stands twice.
abbrev pub Distinct : {V : Type 0} → List (String × V) → Type 0
Distinct [] = Unit
Distinct ((key, v) ∷ rest) = (lookup key rest ≡ none) × Distinct rest

-- An object has each key once, and a look at a key finds its entry.
pub record IsTree (T : JsonTree) : Type 0 where
  pub keys_once : (v : T.Value) (es : List (String × T.Value)) → T.entries v ≡ some es → Distinct es
  pub at_entry :
      (v : T.Value) (es : List (String × T.Value)) (key : String)
      → T.entries v ≡ some es
      → T.at v key ≡ lookup key es
