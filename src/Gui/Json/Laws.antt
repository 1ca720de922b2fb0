-- ===== src/Gui/Json/Laws.antt =====
-- What an assignment and a change in place make of an object's members.
use machine_controller.Base.{
  ◌≡◌, refl, sym, ap, ◌∙◌, Bool, true, false, String, Option, none, some, if_cases, if◌then◌else◌,
  arith,
}
use machine_controller.Base.Options.{◌>>=◌, >>=-eq-some, some_inj}
use machine_controller.Config.Defaults.{has}
use machine_controller.Gui.Json.{GuiJson, IsGuiJson, value_or, index, assign, edit, ensured}
use text.Mathlib.Text.{◌==◌ as str_eq}
use text.Mathlib.TextEquality.{eq_iff}

pub has-some : {A : Type 0} (m : Option A) → has m ≡ true → (a : A) × (m ≡ some a)
has-some none h = absurd (ground (arith, h))
has-some (some a) h = (a, refl)

pub guarded :
    {A : Type 0} (b : Bool) (m : Option A) (r : A)
    → (if b then m else none) ≡ some r
    → (b ≡ true) × (m ≡ some r)
guarded true m r h = (refl, h)
guarded false m r h = absurd (ground (arith, h))

pub str_eq_self : (s : String) → str_eq s s ≡ true
str_eq_self s = (eq_iff s s).1 refl

module _ {D : Type 0} (J : GuiJson D) (laws : IsGuiJson J) where
  open J use {editor, null}
  open editor use {Value, object, member, is_object, settable, put}

  pub put_member :
      (v : Value) (key other : String) (x : Value)
      → settable v ≡ true
      → member (put v key x) other ≡ (if str_eq key other then some x else member v other)
  put_member = laws.editor_laws.put_member

  pub put_member_self :
      (v : Value) (key : String) (x : Value) → settable v ≡ true → member (put v key x) key ≡ some x
  put_member_self v key x s = put_member v key key x s ∙ rw (str_eq_self key) refl

  pub put_member_other :
      (v : Value) (key other : String) (x : Value)
      → settable v ≡ true
      → str_eq key other ≡ false
      → member (put v key x) other ≡ member v other
  put_member_other v key other x s apart = put_member v key other x s ∙ rw apart refl

  pub assign-put :
      (key : String) (x v r : Value)
      → assign J key x v ≡ some r
      → (settable v ≡ true) × (r ≡ put v key x)
  unfolding assign
  assign-put key x v r h =
      let (s, e) = guarded (settable v) (some (put v key x)) r h in (s, sym (some_inj _ r e))

  pub assign_settable :
      (key : String) (x v : Value) → settable v ≡ true → assign J key x v ≡ some (put v key x)
  unfolding assign
  assign_settable key x v s = rw s refl

  -- A change in place that succeeds has changed the value of the key.
  pub edit-put :
      (key : String) (change : Value → Option Value) (v r : Value)
      → edit J key change v ≡ some r
      → (x : Value) × ((settable v ≡ true)
          × ((change (index J v key) ≡ some x) × (r ≡ put v key x)))
  unfolding edit
  edit-put key change v r h =
      let (s, e) = guarded (settable v) (change (index J v key) >>= λ x. some (put v key x)) r h in
      let (x, (changed, made)) = >>=-eq-some (change (index J v key)) _ r e in
      (x, (s, (changed, sym (some_inj _ r made))))

  pub edit_settable :
      (key : String) (change : Value → Option Value) (v x : Value)
      → settable v ≡ true
      → change (index J v key) ≡ some x
      → edit J key change v ≡ some (put v key x)
  unfolding edit
  edit_settable key change v x s h = rw s (rw h refl)

  pub index-member :
      (v : Value) (key : String) (x : Value) → member v key ≡ some x → index J v key ≡ x
  index-member v key x h = ap (value_or null) h

  pub member-settable :
      (v : Value) (key : String) (x : Value) → member v key ≡ some x → settable v ≡ true
  member-settable v key x h =
      laws.editor_laws.object_settable v (laws.member_is_object v key (ap has h))

  -- A key that is ensured is there, and the other members are as before.
  pub ensured-member :
      (key other : String) (v r : Value)
      → ensured J key v ≡ some r
      → member r other
        ≡ (if str_eq key other then some (value_or object (member v key)) else member v other)
  unfolding ensured
  ensured-member key other v r h = split (member v key) refl h
    where
      split :
          (m : Option Value)
          → member v key ≡ m
          → (if has m then some v else assign J key object v) ≡ some r
          → member r other ≡ (if str_eq key other then some (value_or object m) else member v other)
      split none e h =
          let (s, made) = assign-put key object v r h in
          ap (λ w. member w other) made ∙ put_member v key other object s
      split (some x) e h =
          ap (λ w. member w other) (sym (some_inj v r h))
          ∙ if_cases (λ m. member v other ≡ m) (str_eq key other)
              (λ same. ap (member v) (sym ((eq_iff key other).0 same)) ∙ e) (λ apart. refl)

  -- An object takes the key.
  pub ensured-total :
      (key : String) (v : Value)
      → is_object v ≡ true
      → (r : Value) × ((ensured J key v ≡ some r) × (is_object r ≡ true))
  unfolding ensured
  ensured-total key v o = split (has (member v key)) refl
    where
      split :
          (b : Bool)
          → has (member v key) ≡ b
          → (r : Value) × (((if b then some v else assign J key object v) ≡ some r)
              × (is_object r ≡ true))
      split true e = (v, (refl, o))
      split false e =
          let s = laws.editor_laws.object_settable v o in
          (
            put v key object,
            (assign_settable key object v s, laws.editor_laws.put_is_object v key object s),
          )

  pub ensured-is_object :
      (key : String) (v r : Value) → ensured J key v ≡ some r → is_object r ≡ true
  unfolding ensured
  ensured-is_object key v r h = split (has (member v key)) refl h
    where
      split :
          (b : Bool)
          → has (member v key) ≡ b
          → (if b then some v else assign J key object v) ≡ some r
          → is_object r ≡ true
      split true e h = ap is_object (sym (some_inj v r h)) ∙ laws.member_is_object v key e
      split false e h =
          let (s, made) = assign-put key object v r h in
          ap is_object made ∙ laws.editor_laws.put_is_object v key object s
