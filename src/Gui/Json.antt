-- ===== src/Gui/Json.antt =====
-- The JSON library, as src/gui/SettingsWindow.cpp uses it. A result `none` is an exception.
pub mod Laws
use machine_controller.Base.{
  ℕ, suc, zero, ◌≡◌, Bool, true, false, List, [], ◌∷◌, String, Option, none, some, if◌then◌else◌,
}
use machine_controller.Base.Int.{ℤ}
use machine_controller.Base.Maps.{lookup}
use machine_controller.Base.Options.{◌>>=◌}
use machine_controller.Config.Defaults.{JsonEditor, IsEditor, has}
use text.Mathlib.Text.{◌==◌ as str_eq}

-- `entries` is what a loop over an object's items visits, in the order of their keys, `elements` an
-- array's. `ratio m n` is the literal m / n, `get_text` and the others are `get<T>()`; that of a text
-- or of a Boolean throws unless the value is one.
pub record GuiJson (D : Type 0) : Type 1 where
  pub editor : JsonEditor
  pub null : editor.Value
  pub double : D → editor.Value
  pub ratio : ℕ → ℕ → D
  pub erase : editor.Value → String → editor.Value
  pub entries : editor.Value → List (String × editor.Value)
  pub size : editor.Value → ℕ
  pub is_array : editor.Value → Bool
  pub elements : editor.Value → List editor.Value
  pub is_number : editor.Value → Bool
  pub get_text : editor.Value → Option String
  pub get_flag : editor.Value → Option Bool
  pub get_int : editor.Value → Option ℤ
  pub get_double : editor.Value → Option D

-- What is put is read back; what is erased is gone; an object's items are its members; only an
-- object has members.
pub record IsGuiJson {D : Type 0} (J : GuiJson D) : Type 0 where
  pub editor_laws : IsEditor J.editor
  pub null_settable : J.editor.settable J.null ≡ true
  pub null_member : (key : String) → J.editor.member J.null key ≡ none
  pub member_is_object :
      (v : J.editor.Value) (key : String)
      → has (J.editor.member v key) ≡ true
      → J.editor.is_object v ≡ true
  pub empty_member : (key : String) → J.editor.member J.editor.object key ≡ none
  pub erase_member :
      (v : J.editor.Value) (key other : String)
      → J.editor.is_object v ≡ true
      → J.editor.member (J.erase v key) other
        ≡ (if str_eq key other then none else J.editor.member v other)
  pub entries_member :
      (v : J.editor.Value) (key : String)
      → J.editor.is_object v ≡ true
      → lookup key (J.entries v) ≡ J.editor.member v key
  pub erase_is_object :
      (v : J.editor.Value) (key : String)
      → J.editor.is_object v ≡ true
      → J.editor.is_object (J.erase v key) ≡ true
  pub array_is_array : (vs : List J.editor.Value) → J.is_array (J.editor.array vs) ≡ true
  pub array_elements : (vs : List J.editor.Value) → J.elements (J.editor.array vs) ≡ vs
  pub text_get : (s : String) → J.get_text (J.editor.text s) ≡ some s
  pub flag_get : (b : Bool) → J.get_flag (J.editor.flag b) ≡ some b
  pub int_get : (n : ℤ) → J.get_int (J.editor.int n) ≡ some n
  pub double_get : (d : D) → J.get_double (J.double d) ≡ some d

abbrev pub value_or : {A : Type 0} → A → Option A → A
value_or d none = d
value_or d (some a) = a

-- One call for each element; the first exception ends the loop.
unfoldable pub each : {A B : Type 0} → (A → Option B) → List A → Option (List B)
each f [] = some []
each f (a ∷ rest) = do b ← f a; bs ← each f rest; some (b ∷ bs)

-- The element of an index is changed in place; there is none past the end.
unfoldable pub edit_nth : {A : Type 0} → ℕ → (A → Option A) → List A → Option (List A)
edit_nth i f [] = none
edit_nth zero f (a ∷ rest) = f a >>= λ b. some (b ∷ rest)
edit_nth (suc i) f (a ∷ rest) = edit_nth i f rest >>= λ bs. some (a ∷ bs)

module _ {D : Type 0} (J : GuiJson D) where
  open J use {editor, null, is_array, elements, get_text}
  open editor use {Value, object, member, is_object, settable, put, array}

  -- `v[key]` of a key that may be missing
  abbrev pub index : Value → String → Value
  index v key = value_or null (member v key)

  -- `v[key] = x`
  unfoldable pub assign : String → Value → Value → Option Value
  assign key x v = if settable v then some (put v key x) else none

  -- One assignment after another.
  unfoldable pub assign_all : List (String × Value) → Value → Option Value
  assign_all [] v = some v
  assign_all ((key, x) ∷ rest) v = assign key x v >>= assign_all rest

  -- The value of a key is changed in place.
  unfoldable pub edit : String → (Value → Option Value) → Value → Option Value
  edit key change v =
      if settable v then change (index v key) >>= (λ x. some (put v key x)) else none

  -- The element of an array is changed in place.
  unfoldable pub edit_element : ℕ → (Value → Option Value) → Value → Option Value
  edit_element i change v =
      if is_array v then edit_nth i change (elements v) >>= (λ vs. some (array vs)) else none

  -- `if (!v.contains(key)) v[key] = object();`
  unfoldable pub ensured : String → Value → Option Value
  ensured key v = if has (member v key) then some v else assign key object v

  -- An object of an initialiser list.
  abbrev pub object_of : List (String × Value) → Value → Value
  object_of [] v = v
  object_of ((key, x) ∷ rest) v = object_of rest (put v key x)

  -- `v.value(key, d)`
  unfoldable pub value : {A : Type 0} → (Value → Option A) → Value → String → A → Option A
  value get v key d =
      if is_object v then elim (member v key) [ none ↦ some d | some x ↦ get x ] else none

  -- Whether a value is this text.
  abbrev pub is_text : Value → String → Bool
  is_text v s = elim (get_text v) [ none ↦ false | some t ↦ str_eq t s ]
