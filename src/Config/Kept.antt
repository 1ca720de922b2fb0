-- ===== src/Config/Kept.antt =====
-- What the defaults change and what they keep.
use text.Mathlib.Text.{◌==◌ as str_eq}
use text.Mathlib.TextEquality.{eq_iff}
use machine_controller.Base.{
  ◌≡◌, refl, sym, ap, ◌∙◌, Bool, true, false, List, [], ◌∷◌, String, Option, none, some, if_cases,
  if◌then◌else◌, arith,
}
use machine_controller.Base.Maps.{lookup}
use machine_controller.Config.Defaults.{
  JsonEditor, IsEditor, has, contains, object_or_new, section, ensure_members, in_section,
}

abbrev pub or_else : {A : Type 0} → Option A → Option A → Option A
or_else none d = d
or_else (some a) d = some a

module _ {A : Type 0} where
  or_else-none : (m : Option A) → m ≡ or_else m none
  or_else-none none = refl
  or_else-none (some a) = refl

  or_else_test :
      (m e : Option A) (b : Bool) (x : A)
      → or_else (or_else m (if b then some x else none)) e ≡ or_else m (if b then some x else e)
  or_else_test none e true x = refl
  or_else_test none e false x = refl
  or_else_test (some a) e b x = refl

  or_else_kept :
      (m : Option A) (b : Bool) (x : A)
      → (b ≡ true → has m ≡ true)
      → m ≡ or_else m (if b then some x else none)
  or_else_kept none true x h = absurd (ground (arith, h refl))
  or_else_kept none false x h = refl
  or_else_kept (some a) b x h = refl

  or_else_new :
      (m : Option A) (b : Bool) (x : A)
      → (b ≡ true → has m ≡ false)
      → (if b then some x else m) ≡ or_else m (if b then some x else none)
  or_else_new none b x h = refl
  or_else_new (some a) true x h = absurd (ground (arith, h refl))
  or_else_new (some a) false x h = refl

  has-or_else : (m d : Option A) → has m ≡ true → has (or_else m d) ≡ true
  has-or_else none d h = absurd (ground (arith, h))
  has-or_else (some a) d h = refl

  has-or_else_default :
      (m : Option A) (b : Bool) (x : A)
      → b ≡ true
      → has (or_else m (if b then some x else none)) ≡ true
  has-or_else_default none true x h = refl
  has-or_else_default none false x h = absurd (ground (arith, h))
  has-or_else_default (some a) b x h = refl

module _ (E : JsonEditor) (laws : IsEditor E) where
  open E use {Value, object, member, is_object, settable, put}

  put_one-is_object :
      (key : String) (x o : Value)
      → is_object o ≡ true
      → is_object (if contains E o key then o else put o key x) ≡ true
  put_one-is_object key x o h =
      if_cases (λ v. is_object v ≡ true) (contains E o key) (λ _. h)
        (λ _. laws.put_is_object o key x (laws.object_settable o h))

  pub ensure_members-is_object :
      (ds : List (String × Value)) (o : Value)
      → is_object o ≡ true
      → is_object (ensure_members E ds o) ≡ true
  unfolding ensure_members
  ensure_members-is_object [] o h = h
  ensure_members-is_object ((key, x) ∷ rest) o h =
      ensure_members-is_object rest _ (put_one-is_object key x o h)

  put_one-member :
      (key other : String) (x o : Value)
      → is_object o ≡ true
      → member (if contains E o key then o else put o key x) other
        ≡ or_else (member o other) (if str_eq key other then some x else none)
  put_one-member key other x o h =
      let same = λ (e : str_eq key other ≡ true).
        ap (λ k. has (member o k)) (sym ((eq_iff key other).0 e)) in
      if_cases
        (λ v. member v other ≡ or_else (member o other) (if str_eq key other then some x else none))
        (contains E o key)
        (λ there. or_else_kept (member o other) (str_eq key other) x (λ e. same e ∙ there))
        (λ missing.
          laws.put_member o key other x (laws.object_settable o h)
          ∙ or_else_new (member o other) (str_eq key other) x (λ e. same e ∙ missing))

  -- A setting that is there keeps its value, another gets the default.
  pub ensure_members-member :
      (ds : List (String × Value)) (o : Value) (key : String)
      → is_object o ≡ true
      → member (ensure_members E ds o) key ≡ or_else (member o key) (lookup key ds)
  unfolding ensure_members lookup
  ensure_members-member [] o key h = or_else-none (member o key)
  ensure_members-member ((k, x) ∷ rest) o key h =
      ensure_members-member rest _ key (put_one-is_object k x o h)
      ∙ (ap (λ m. or_else m (lookup key rest)) (put_one-member k key x o h)
          ∙ or_else_test (member o key) (lookup key rest) (str_eq k key) x)

  -- Settings that are all there are left as they are.
  abbrev AllThere : List (String × Value) → Value → Type 0
  AllThere [] o = Unit
  AllThere ((key, x) ∷ rest) o = (contains E o key ≡ true) × AllThere rest o

  ensure_members_there :
      (ds : List (String × Value)) (o : Value) → AllThere ds o → ensure_members E ds o ≡ o
  unfolding ensure_members
  ensure_members_there [] o h = refl
  ensure_members_there ((key, x) ∷ rest) o h = rw h.0 (ensure_members_there rest o h.1)

  ensure_members-AllThere :
      (ds : List (String × Value)) (o : Value)
      → is_object o ≡ true
      → AllThere ds (ensure_members E ds o)
  unfolding ensure_members
  ensure_members-AllThere [] o h = tt
  ensure_members-AllThere ((key, x) ∷ rest) o h =
      let next = if contains E o key then o else put o key x in
      let now : contains E next key ≡ true =
        ap has (put_one-member key key x o h)
        ∙ has-or_else_default (member o key) (str_eq key key) x ((eq_iff key key).1 refl) in
      let still = put_one-is_object key x o h in
      (
        ap has (ensure_members-member rest next key still)
            ∙ has-or_else (member next key) (lookup key rest) now,
        ensure_members-AllThere rest next still,
      )

  pub ensure_members_twice :
      (ds : List (String × Value)) (o : Value)
      → is_object o ≡ true
      → ensure_members E ds (ensure_members E ds o) ≡ ensure_members E ds o
  ensure_members_twice ds o h =
      ensure_members_there ds (ensure_members E ds o) (ensure_members-AllThere ds o h)

  pub section-is_object : (v : Value) (key : String) → is_object (section E v key) ≡ true
  section-is_object v key = made (member v key)
    where
      made : (m : Option Value) → is_object (object_or_new E m) ≡ true
      made none = laws.empty_is_object
      made (some x) =
          if_cases (λ y. is_object y ≡ true) (is_object x) (λ e. e) (λ _. laws.empty_is_object)

  pub member-in_section :
      (key : String) (change : Value → Value) (root : Value)
      → settable root ≡ true
      → member (in_section E key change root) key ≡ some (change (section E root key))
  unfolding in_section
  member-in_section key change root s =
      laws.put_member root key key (change (section E root key)) s
      ∙ rw ((eq_iff key key).1 refl) refl

  section-member :
      (v : Value) (key : String) (x : Value)
      → member v key ≡ some x
      → is_object x ≡ true
      → section E v key ≡ x
  section-member v key x m h = ap (object_or_new E) m ∙ rw h refl

  -- The section that was changed, and another one.
  pub section-in_section :
      (key : String) (change : Value → Value) (root : Value)
      → settable root ≡ true
      → is_object (change (section E root key)) ≡ true
      → section E (in_section E key change root) key ≡ change (section E root key)
  section-in_section key change root s h =
      section-member (in_section E key change root) key (change (section E root key))
        (member-in_section key change root s) h

  pub member-in_section_other :
      (key other : String) (change : Value → Value) (root : Value)
      → settable root ≡ true
      → str_eq key other ≡ false
      → member (in_section E key change root) other ≡ member root other
  unfolding in_section
  member-in_section_other key other change root s apart =
      laws.put_member root key other (change (section E root key)) s ∙ rw apart refl

  pub in_section-is_object :
      (key : String) (change : Value → Value) (root : Value)
      → settable root ≡ true
      → is_object (in_section E key change root) ≡ true
  unfolding in_section
  in_section-is_object key change root s = laws.put_is_object root key _ s

  pub in_section_settled :
      (key : String) (change : Value → Value) (v x : Value)
      → member v key ≡ some x
      → is_object x ≡ true
      → change x ≡ x
      → in_section E key change v ≡ v
  unfolding in_section
  in_section_settled key change v x m h same =
      ap (λ y. put v key (change y)) (section-member v key x m h)
      ∙ (ap (put v key) same ∙ laws.put_same v key x m)

  -- A change that is made twice is made once, if this holds of the section.
  pub in_section_twice :
      (key : String) (change : Value → Value) (root : Value)
      → settable root ≡ true
      → is_object (change (section E root key)) ≡ true
      → change (change (section E root key)) ≡ change (section E root key)
      → in_section E key change (in_section E key change root) ≡ in_section E key change root
  in_section_twice key change root s h twice =
      in_section_settled key change (in_section E key change root) (change (section E root key))
        (member-in_section key change root s) h twice
