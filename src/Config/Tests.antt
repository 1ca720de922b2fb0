-- ===== src/Config/Tests.antt =====
-- A JSON library for the tests, and configurations in it.
use machine_controller.Base.{
  ◌≡◌, refl, ap, Bool, true, false, List, [], ◌∷◌, String, Option, none, some, if_cases,
  if◌then◌else◌, arith,
}
use machine_controller.Base.Int.{ℤ, pos}
use machine_controller.Base.Maps.{lookup}
use machine_controller.Base.Options.{◌>>=◌, >>=-eq-some, some_inj}
use text.Mathlib.Text.{◌==◌ as str_eq}
use text.Mathlib.TextEquality.{eq_iff}
use machine_controller.Config.Defaults.{JsonEditor, IsEditor}
use machine_controller.Config.Filled.{tests, settings_at, ensured, defaults_filled}
use machine_controller.Config.Tree.{JsonTree, Distinct, IsTree}

-- Objects and arrays are chains of entries; an array's keys are not looked at.
pub data Sample : Type 0 where
  word : String → Sample
  number : ℤ → Sample
  end : Sample
  entry : String → Sample → Sample → Sample

-- An entry behind one of the same key counts.
abbrev add_entry : String → Sample → List (String × Sample) → Option Sample → List (String × Sample)
add_entry key v es none = (key, v) ∷ es
add_entry key v es (some old) = es

abbrev sample_entries : Sample → Option (List (String × Sample))
sample_entries (word s) = none
sample_entries (number n) = none
sample_entries end = some []
sample_entries (entry key v rest) =
    sample_entries rest >>= λ es. some (add_entry key v es (lookup key es))

abbrev sample_elements : Sample → List Sample
sample_elements (word s) = word s ∷ []
sample_elements (number n) = number n ∷ []
sample_elements end = []
sample_elements (entry key v rest) = v ∷ sample_elements rest

abbrev word_of : Sample → Option String
word_of (word s) = some s
word_of v = none

abbrev as_number : Sample → Option ℤ
as_number (number n) = some n
as_number v = none

abbrev or_default : {A : Type 0} → (Sample → Option A) → A → Option Sample → Option A
or_default f d none = some d
or_default f d (some v) = f v

abbrev found : Option Sample → Bool
found none = false
found (some v) = true

abbrev at_key : Sample → String → Option Sample
at_key v key = sample_entries v >>= lookup key

abbrev pub samples : JsonTree
samples = record {
  Value = Sample;
  object = end;
  array = end;
  value = λ v key d. sample_entries v >>= λ es. or_default (λ x. some x) d (lookup key es);
  value_int = λ v key d. sample_entries v >>= λ es. or_default as_number d (lookup key es);
  value_text = λ v key d. sample_entries v >>= λ es. or_default word_of d (lookup key es);
  elements = sample_elements;
  entries = sample_entries;
  contains = λ v key. found (at_key v key);
  at = at_key;
  get_text = word_of;
}

add_entry-Distinct :
    (key : String) (v : Sample) (es : List (String × Sample)) (old : Option Sample)
    → lookup key es ≡ old
    → Distinct es
    → Distinct (add_entry key v es old)
add_entry-Distinct key v es none e d = (e, d)
add_entry-Distinct key v es (some old) e d = d

sample_entries-Distinct :
    (v : Sample) (es : List (String × Sample)) → sample_entries v ≡ some es → Distinct es
sample_entries-Distinct (word s) es h = absurd (ground arith)
sample_entries-Distinct (number n) es h = absurd (ground arith)
sample_entries-Distinct end es h = rw⁻¹ (some_inj [] es h) tt
sample_entries-Distinct (entry key v rest) es h =
    let (inner, (inner_read, made)) = >>=-eq-some (sample_entries rest) _ es h in
    rw⁻¹ (some_inj _ es made) (
      add_entry-Distinct key v inner (lookup key inner) refl
        (sample_entries-Distinct rest inner inner_read))

pub samples-IsTree : IsTree samples
samples-IsTree = record {
  keys_once = sample_entries-Distinct;
  at_entry = λ v es key h. ap (λ x. x >>= lookup key) h;
}

abbrev pin_entry : String → ℤ → Sample
pin_entry name pin = entry "name" (word name) (entry "pin" (number pin) end)

-- Port A is read and port B is written.
abbrev pub two_ports : Sample
two_ports =
    entry "io"
      (entry "portsConfiguration" (entry "A" (word "input") (entry "B" (word "output") end)) (
        entry "inputs" (entry "0" (pin_entry "i1" (pos 3)) end)
          (entry "outputs" (entry "0" (pin_entry "o1" (pos 9)) end) end)))
      end

abbrev find : Sample → String → Option Sample
find (entry k v rest) key = if str_eq k key then some v else find rest key
find v key = none

abbrev change : Sample → String → Sample → Sample
change (entry k v rest) key x =
    if str_eq k key then entry k x rest else entry k v (change rest key x)
change v key x = entry key x end

abbrev is_chain : Sample → Bool
is_chain (word s) = false
is_chain (number n) = false
is_chain v = true

abbrev chain : List Sample → Sample
chain [] = end
chain (v ∷ vs) = entry "" v (chain vs)

abbrev is_end : Sample → Bool
is_end end = true
is_end v = false

abbrev pub sample_editor : JsonEditor
sample_editor = record {
  Value = Sample;
  object = end;
  member = find;
  is_object = is_chain;
  is_empty = is_end;
  settable = is_chain;
  put = change;
  text = word;
  int = number;
  real = λ m n. number (pos m);
  flag = λ b. word (if b then "true" else "false");
  array = chain;
}

find-change :
    (v : Sample) (key other : String) (x : Sample)
    → find (change v key x) other ≡ (if str_eq key other then some x else find v other)
find-change (word s) key other x = refl
find-change (number n) key other x = refl
find-change end key other x = refl
find-change (entry k v rest) key other x =
    let ih = find-change rest key other x in
    ground (arith, eq_iff key other, eq_iff k key, eq_iff k other, ih)

change_same : (v : Sample) (key : String) (x : Sample) → find v key ≡ some x → change v key x ≡ v
change_same (word s) key x h = absurd (ground arith)
change_same (number n) key x h = absurd (ground arith)
change_same end key x h = absurd (ground arith)
change_same (entry k v rest) key x h =
    if_cases (λ w. w ≡ entry k v rest) (str_eq k key)
      (λ e. let same : x ≡ v = ground arith in ap (λ w. entry k w rest) same)
      (λ e. ap (entry k v) (change_same rest key x (ground arith)))

change-is_chain : (v : Sample) (key : String) (x : Sample) → is_chain (change v key x) ≡ true
change-is_chain (word s) key x = refl
change-is_chain (number n) key x = refl
change-is_chain end key x = refl
change-is_chain (entry k v rest) key x =
    if_cases (λ w. is_chain w ≡ true) (str_eq k key) (λ _. refl) (λ _. refl)

sample_editor-IsEditor : IsEditor sample_editor
sample_editor-IsEditor = record {
  put_member = λ v key other x s. find-change v key other x;
  put_same = change_same;
  put_is_object = λ v key x s. change-is_chain v key x;
  empty_is_object = refl;
  object_settable = λ v h. h;
}

-- A configuration with one setting of the tests.
abbrev one_setting : Sample
one_setting = entry "tests" (entry "reader2" (word "communication3") end) end

defaults_filled_example :
    ((find (settings_at sample_editor tests (ensured sample_editor tests one_setting)) "reader2"
        ≡ some (word "communication3"))
      × (find (ensured sample_editor tests one_setting) "io" ≡ none))
    × (ensured sample_editor tests (ensured sample_editor tests one_setting)
        ≡ ensured sample_editor tests one_setting)
unfolding lookup
defaults_filled_example =
    defaults_filled sample_editor sample_editor-IsEditor tests one_setting "reader2" "io" refl refl
