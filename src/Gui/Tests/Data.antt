-- ===== src/Gui/Tests/Data.antt =====
-- A JSON library and a window for the tests. Numbers are whole.
use machine_controller.Base.{
  zero, ◌≡◌, refl, ap, ◌∙◌, Bool, true, false, List, [], ◌∷◌, length, String, Option, none, some,
  if◌then◌else◌, arith,
}
use machine_controller.Base.Int.{ℤ, pos}
use machine_controller.Base.Maps.{lookup, insert, lookup-insert}
use machine_controller.Config.Defaults.{has}
use machine_controller.Gui.Json.{GuiJson, IsGuiJson}
use machine_controller.Gui.Window.{Combo, Window, Qt}
use text.Mathlib.Text.{◌==◌ as str_eq}
use text.Mathlib.TextEquality.{eq_iff}

mutual
  pub data Json : Type 0 where
    null : Json
    word : String → Json
    number : ℤ → Json
    truth : Bool → Json
    list : Items → Json
    object : Fields → Json

  pub data Items : Type 0 where
    nil : Items
    cons : Json → Items → Items

  pub data Fields : Type 0 where
    end : Fields
    field : String → Json → Fields → Fields

abbrev items_list : Items → List Json
items_list nil = []
items_list (cons v vs) = v ∷ items_list vs

abbrev items_of : List Json → Items
items_of [] = nil
items_of (v ∷ vs) = cons v (items_of vs)

abbrev fields_list : Fields → List (String × Json)
fields_list end = []
fields_list (field k v rest) = (k, v) ∷ fields_list rest

abbrev pub fields_of : List (String × Json) → Fields
fields_of [] = end
fields_of ((k, v) ∷ rest) = field k v (fields_of rest)

items_list-items_of : (vs : List Json) → items_list (items_of vs) ≡ vs
items_list-items_of [] = refl
items_list-items_of (v ∷ vs) = ap (λ l. v ∷ l) (items_list-items_of vs)

fields_list-fields_of : (es : List (String × Json)) → fields_list (fields_of es) ≡ es
fields_list-fields_of [] = refl
fields_list-fields_of ((k, v) ∷ es) = ap (λ l. (k, v) ∷ l) (fields_list-fields_of es)

abbrev entries_of : Json → List (String × Json)
entries_of (object fs) = fields_list fs
entries_of v = []

abbrev is_object_or_null : Json → Bool
is_object_or_null null = true
is_object_or_null (object fs) = true
is_object_or_null v = false

abbrev is_object_value : Json → Bool
is_object_value (object fs) = true
is_object_value v = false

abbrev is_list : Json → Bool
is_list (list vs) = true
is_list v = false

abbrev elements_in : Json → List Json
elements_in (list vs) = items_list vs
elements_in v = []

abbrev put_in : Json → String → Json → Json
put_in null k x = object (field k x end)
put_in (object fs) k x = object (fields_of (insert k x (fields_list fs)))
put_in v k x = v

abbrev erase_key : String → List (String × Json) → List (String × Json)
erase_key k [] = []
erase_key k ((key, v) ∷ rest) =
    if str_eq key k then erase_key k rest else (key, v) ∷ erase_key k rest

abbrev erase_in : Json → String → Json
erase_in (object fs) k = object (fields_of (erase_key k (fields_list fs)))
erase_in v k = v

abbrev is_nil : List (String × Json) → Bool
is_nil [] = true
is_nil es = false

abbrev is_number_value : Json → Bool
is_number_value (number n) = true
is_number_value v = false

abbrev word_of : Json → Option String
word_of (word s) = some s
word_of v = none

abbrev truth_of : Json → Option Bool
truth_of (truth b) = some b
truth_of v = none

abbrev whole_of : Json → Option ℤ
whole_of (number n) = some n
whole_of v = none

abbrev pub json : GuiJson ℤ
json = record {
  editor = record {
    Value = Json;
    object = object end;
    member = λ v k. lookup k (entries_of v);
    is_object = is_object_value;
    is_empty = λ v. is_nil (entries_of v);
    settable = is_object_or_null;
    put = put_in;
    text = word;
    int = number;
    real = λ m n. number (pos m);
    flag = truth;
    array = λ vs. list (items_of vs);
  };
  null = null;
  double = number;
  ratio = λ m n. pos m;
  erase = erase_in;
  entries = entries_of;
  size = λ v. length (entries_of v);
  is_array = is_list;
  elements = elements_in;
  is_number = is_number_value;
  get_text = word_of;
  get_flag = truth_of;
  get_int = whole_of;
  get_double = whole_of;
}

lookup-erase_key :
    (k other : String) (es : List (String × Json))
    → lookup other (erase_key k es) ≡ (if str_eq k other then none else lookup other es)
unfolding lookup
lookup-erase_key k other [] = ground arith
lookup-erase_key k other ((key, v) ∷ rest) =
    ground (arith, eq_iff key k, eq_iff key other, eq_iff k other, lookup-erase_key k other rest)

put_in-member :
    (v : Json) (k other : String) (x : Json)
    → is_object_or_null v ≡ true
    → lookup other (entries_of (put_in v k x))
      ≡ (if str_eq k other then some x else lookup other (entries_of v))
unfolding lookup
put_in-member null k other x s = refl
put_in-member (object fs) k other x s =
    ap (lookup other) (fields_list-fields_of (insert k x (fields_list fs)))
    ∙ lookup-insert k other x (fields_list fs)
put_in-member (word w) k other x s = absurd (ground arith)
put_in-member (number n) k other x s = absurd (ground arith)
put_in-member (truth b) k other x s = absurd (ground arith)
put_in-member (list vs) k other x s = absurd (ground arith)

insert_same :
    (k : String) (x : Json) (es : List (String × Json)) → lookup k es ≡ some x → insert k x es ≡ es
unfolding lookup insert
insert_same k x [] h = absurd (ground (arith, h))
insert_same k x ((key, v) ∷ rest) h = ground (arith, h, eq_iff key k, insert_same k x rest)

fields_of-fields_list : (fs : Fields) → fields_of (fields_list fs) ≡ fs
fields_of-fields_list end = refl
fields_of-fields_list (field k v fs) = ap (field k v) (fields_of-fields_list fs)

put_in_same :
    (v : Json) (k : String) (x : Json) → lookup k (entries_of v) ≡ some x → put_in v k x ≡ v
unfolding lookup
put_in_same (object fs) k x h =
    ap (λ es. object (fields_of es)) (insert_same k x (fields_list fs) h)
    ∙ ap object (fields_of-fields_list fs)
put_in_same null k x h = absurd (ground (arith, h))
put_in_same (word w) k x h = absurd (ground (arith, h))
put_in_same (number n) k x h = absurd (ground (arith, h))
put_in_same (truth b) k x h = absurd (ground (arith, h))
put_in_same (list vs) k x h = absurd (ground (arith, h))

put_in-is_object :
    (v : Json) (k : String) (x : Json)
    → is_object_or_null v ≡ true
    → is_object_value (put_in v k x) ≡ true
put_in-is_object null k x s = refl
put_in-is_object (object fs) k x s = refl
put_in-is_object (word w) k x s = s
put_in-is_object (number n) k x s = s
put_in-is_object (truth b) k x s = s
put_in-is_object (list vs) k x s = s

object-settable : (v : Json) → is_object_value v ≡ true → is_object_or_null v ≡ true
object-settable (object fs) h = refl
object-settable null h = refl
object-settable (word w) h = h
object-settable (number n) h = h
object-settable (truth b) h = h
object-settable (list vs) h = h

member-object :
    (v : Json) (k : String) → has (lookup k (entries_of v)) ≡ true → is_object_value v ≡ true
unfolding lookup
member-object (object fs) k h = refl
member-object null k h = h
member-object (word w) k h = h
member-object (number n) k h = h
member-object (truth b) k h = h
member-object (list vs) k h = h

erase_in-member :
    (v : Json) (k other : String)
    → is_object_value v ≡ true
    → lookup other (entries_of (erase_in v k))
      ≡ (if str_eq k other then none else lookup other (entries_of v))
erase_in-member (object fs) k other h =
    ap (lookup other) (fields_list-fields_of (erase_key k (fields_list fs)))
    ∙ lookup-erase_key k other (fields_list fs)
erase_in-member null k other h = absurd (ground arith)
erase_in-member (word w) k other h = absurd (ground arith)
erase_in-member (number n) k other h = absurd (ground arith)
erase_in-member (truth b) k other h = absurd (ground arith)
erase_in-member (list vs) k other h = absurd (ground arith)

erase_in-is_object :
    (v : Json) (k : String) → is_object_value v ≡ true → is_object_value (erase_in v k) ≡ true
erase_in-is_object (object fs) k h = refl
erase_in-is_object null k h = h
erase_in-is_object (word w) k h = h
erase_in-is_object (number n) k h = h
erase_in-is_object (truth b) k h = h
erase_in-is_object (list vs) k h = h

pub json-IsGuiJson : IsGuiJson json
unfolding lookup
json-IsGuiJson = record {
  editor_laws = record {
    put_member = put_in-member;
    put_same = put_in_same;
    put_is_object = put_in-is_object;
    empty_is_object = refl;
    object_settable = object-settable;
  };
  null_settable = refl;
  null_member = λ k. refl;
  member_is_object = member-object;
  empty_member = λ k. refl;
  erase_member = erase_in-member;
  entries_member = λ v k h. refl;
  erase_is_object = erase_in-is_object;
  array_is_array = λ vs. refl;
  array_elements = items_list-items_of;
  text_get = λ s. refl;
  flag_get = λ b. refl;
  int_get = λ n. refl;
  double_get = λ d. refl;
}

abbrev pub obj : List (String × Json) → Json
obj es = object (fields_of es)

abbrev pub first_gun : Json
first_gun = obj (
    ("gunId", number (pos 1))
    ∷ ("enabled", truth true)
    ∷ ("rows", list (cons (obj (("from", number (pos 10)) ∷ ("to", number (pos 50)) ∷ [])) nil))
    ∷ [])

abbrev pub second_gun : Json
second_gun = obj (("gunId", number (pos 2)) ∷ ("enabled", truth false) ∷ [])

abbrev pub plan : Json
plan = obj (
    ("name", word "First")
    ∷ ("sensorOffset", number (pos 10))
    ∷ ("guns", list (cons first_gun (cons second_gun nil)))
    ∷ [])

abbrev pub line_controller : Json
line_controller = obj (
    ("name", word "Left")
    ∷ ("communication", word "communication1")
    ∷ ("type", word "line")
    ∷ ("encoder", number (pos 10))
    ∷ ("activePlan", word "plan_1")
    ∷ ("plans", obj (("plan_1", plan) ∷ []))
    ∷ [])

abbrev pub glue : Json
glue = obj (
    ("activeController", word "controller_1")
    ∷ ("controllers", obj (("controller_1", line_controller) ∷ ("controller_2", obj []) ∷ []))
    ∷ [])

abbrev pub config : Json
config = obj (("glue", glue) ∷ [])

abbrev no_items : Combo
no_items = record { items = []; current = none }

-- The window shows the first controller and its plan.
abbrev pub window : Window Json ℤ
window = record {
  settings = config;
  file = config;
  writable = true;
  controller_name = "controller_1";
  plan_name = "plan_1";
  is_refreshing = false;
  is_initializing = false;
  queue = [];
  posted = 0;
  tab = record {
    controllers = no_items;
    plans = no_items;
    communications = no_items;
    types = record { items = ("dots", "") ∷ ("line", "") ∷ []; current = some 1 };
    dot_sizes = record { items = ("Small", "") ∷ ("Medium", "") ∷ []; current = some 0 };
    name = "Left";
    encoder = pos 10;
    page_length = pos 100;
    enabled = true;
    start_current = pos 1;
    start_duration = pos 0;
    hold_current = pos 0;
    plan_text = "First";
    sensor_offset = pos 10;
    gun = some 0;
    gun_enabled = true;
    rows = [];
    can_calibrate = true;
  };
}

-- Numbers are written "0" and "1", and read so.
abbrev text_of_number : ℤ → String
text_of_number (pos zero) = "0"
text_of_number n = "1"

abbrev number_in : String → ℤ
number_in s = if str_eq s "0" then pos 0 else pos 1

abbrev pub qt : Qt ℤ
qt = record {
  int_text = text_of_number;
  real_text = text_of_number;
  to_int = number_in;
  to_double = number_in;
  lower = λ s. s;
  trimmed = λ s. s;
  same_word = str_eq;
  encoder_shown = λ x. x;
  current_shown = λ x. x;
  duration_shown = λ x. x;
  page_shown = λ n. n;
  offset_shown = λ n. n;
  same_real = λ x y. false;
  quotient = λ m n. m;
}
