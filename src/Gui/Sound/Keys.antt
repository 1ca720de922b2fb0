-- ===== src/Gui/Sound/Keys.antt =====
-- Controllers and the active one, from settings to the next.
use machine_controller.Base.{
  ◌≡◌, refl, sym, ap, ◌∙◌, true, String, Option, none, some, ◌⊎◌, inl, inr, if_cases, arith,
}
use machine_controller.Base.Options.{◌>>=◌, some_inj}
use machine_controller.Config.Defaults.{has}
use machine_controller.Gui.Json.{GuiJson, IsGuiJson, value_or, assign, edit, ensured}
use machine_controller.Gui.Json.Laws.{
  put_member, put_member_self, put_member_other, assign-put, edit-put, ensured-member,
  ensured-is_object,
}
use machine_controller.Gui.Store.Kept.{controller_of}
use text.Mathlib.Text.{◌==◌ as str_eq}

module _ {D : Type 0} (J : GuiJson D) where
  open J use {editor, get_text}
  open editor use {Value, object, member, is_object, settable, put, text}

  abbrev pub KeysKept : Value → Value → Type 0
  KeysKept v v' = (key : String) → has (member v key) ≡ true → has (member v' key) ≡ true

  -- The active controller, if one is named, is there.
  abbrev pub IsActiveThere : Value → Type 0
  IsActiveThere glue =
      (name : String)
      → (member glue "activeController" >>= get_text) ≡ some name
      → (name ≡ "") ⊎ (has (controller_of J glue name) ≡ true)

  -- The second settings have the controllers of the first, and an active one if the first have.
  pub record Next (glue glue' : Value) : Type 0 where
    pub object : is_object glue' ≡ true
    pub keys :
        (name : String)
        → has (controller_of J glue name) ≡ true
        → has (controller_of J glue' name) ≡ true
    pub active : IsActiveThere glue → IsActiveThere glue'

  module _ (laws : IsGuiJson J) where
    put-KeysKept : (v x : Value) (key : String) → settable v ≡ true → KeysKept v (put v key x)
    put-KeysKept v x key s other h =
        ap has (put_member J laws v key other x s)
        ∙ if_cases (λ m. has m ≡ true) (str_eq key other) (λ _. refl) (λ _. h)

    pub edit-KeysKept :
        (key : String) (change : Value → Option Value) (v r : Value)
        → edit J key change v ≡ some r
        → KeysKept v r
    edit-KeysKept key change v r h other there =
        let (x, (s, (changed, made))) = edit-put J laws key change v r h in
        ap (λ u. has (member u other)) made ∙ put-KeysKept v x key s other there

    pub assign-KeysKept : (key : String) (x v r : Value) → assign J key x v ≡ some r → KeysKept v r
    assign-KeysKept key x v r h other there =
        let (s, made) = assign-put J laws key x v r h in
        ap (λ u. has (member u other)) made ∙ put-KeysKept v x key s other there

    pub ensured-KeysKept : (key : String) (v r : Value) → ensured J key v ≡ some r → KeysKept v r
    ensured-KeysKept key v r h other there =
        ap has (ensured-member J laws key other v r h)
        ∙ if_cases (λ m. has m ≡ true) (str_eq key other) (λ _. refl) (λ _. there)

    -- Controllers are kept through a change of their object that keeps its keys.
    controllers_kept :
        (m m' : Option Value) (name : String)
        → ((cs : Value) → m ≡ some cs → (cs' : Value) × ((m' ≡ some cs') × KeysKept cs cs'))
        → has (m >>= λ v. member v name) ≡ true
        → has (m' >>= λ v. member v name) ≡ true
    controllers_kept none m' name kept h = absurd (ground (arith, h))
    controllers_kept (some cs) m' name kept h =
        let (cs', (e, k)) = kept cs refl in ap (λ n. has (n >>= λ v. member v name)) e ∙ k name h

    keeps-Next :
        (glue glue' : Value)
        → is_object glue' ≡ true
        → ((name : String)
            → has (controller_of J glue name) ≡ true
            → has (controller_of J glue' name) ≡ true)
        → member glue' "activeController" ≡ member glue "activeController"
        → Next glue glue'
    keeps-Next glue glue' o k a = record {
      object = o;
      keys = k;
      active = λ there name named. (elim (there name (ap (λ m. m >>= get_text) (sym a) ∙ named)) [
        | inl e ↦ inl e
        | inr h ↦ inr (k name h)
      ]);
    }

    -- A change of the object of controllers.
    pub edit-Next :
        (change : Value → Option Value) (glue glue' : Value)
        → ((cs cs' : Value) → change cs ≡ some cs' → KeysKept cs cs')
        → edit J "controllers" change glue ≡ some glue'
        → Next glue glue'
    edit-Next change glue glue' kept h =
        let (x, (s, (changed, made))) = edit-put J laws "controllers" change glue glue' h in
        let there : member glue' "controllers" ≡ some x =
          ap (λ u. member u "controllers") made ∙ put_member_self J laws glue "controllers" x s in
        keeps-Next glue glue'
          (ap is_object made ∙ laws.editor_laws.put_is_object glue "controllers" x s)
          (λ name.
            controllers_kept (member glue "controllers") (member glue' "controllers") name (λ cs e.
              (x, (there, kept cs x (ap (λ m. change (value_or J.null m)) (sym e) ∙ changed)))))
          (ap (λ u. member u "activeController") made
            ∙ put_member_other J laws glue "controllers" "activeController" x s refl)

    pub ensured-Next :
        (glue glue' : Value) → ensured J "controllers" glue ≡ some glue' → Next glue glue'
    ensured-Next glue glue' h =
        let section : member glue' "controllers"
            ≡ some (value_or object (member glue "controllers")) =
          ensured-member J laws "controllers" "controllers" glue glue' h in
        keeps-Next glue glue' (ensured-is_object J laws "controllers" glue glue' h)
          (λ name.
            controllers_kept (member glue "controllers") (member glue' "controllers") name
              (λ cs f. (cs, (section ∙ ap (λ m. some (value_or object m)) f, λ key there. there))))
          (ensured-member J laws "controllers" "activeController" glue glue' h)

    pub assign-controllers :
        (x glue glue' : Value) (other : String)
        → assign J "activeController" x glue ≡ some glue'
        → controller_of J glue' other ≡ controller_of J glue other
    assign-controllers x glue glue' other h =
        let (s, made) = assign-put J laws "activeController" x glue glue' h in
        ap (λ m. m >>= λ v. member v other)
          (ap (λ u. member u "controllers") made
            ∙ put_member_other J laws glue "activeController" "controllers" x s refl)

    pub assign-active :
        (name : String) (glue glue' : Value)
        → assign J "activeController" (text name) glue ≡ some glue'
        → (member glue' "activeController" >>= get_text) ≡ some name
    assign-active name glue glue' h =
        let (s, made) = assign-put J laws "activeController" (text name) glue glue' h in
        ap (λ m. m >>= get_text)
          (ap (λ u. member u "activeController") made
            ∙ put_member_self J laws glue "activeController" (text name) s)
        ∙ laws.text_get name

    pub named-IsActiveThere :
        (name : String) (glue : Value)
        → (member glue "activeController" >>= get_text) ≡ some name
        → (name ≡ "") ⊎ (has (controller_of J glue name) ≡ true)
        → IsActiveThere glue
    named-IsActiveThere name glue active there other named =
        let same = some_inj name other (sym active ∙ named) in
        (elim there [
          | inl e ↦ inl (sym same ∙ e)
          | inr t ↦ inr (ap (λ k. has (controller_of J glue k)) (sym same) ∙ t)
        ])

    -- The active controller is set to one that is there, or to none.
    pub assign-Next :
        (name : String) (glue glue' : Value)
        → (name ≡ "") ⊎ (has (controller_of J glue name) ≡ true)
        → assign J "activeController" (text name) glue ≡ some glue'
        → Next glue glue'
    assign-Next name glue glue' there h =
        let (s, made) = assign-put J laws "activeController" (text name) glue glue' h in
        record {
          object =
              ap is_object made
              ∙ laws.editor_laws.put_is_object glue "activeController" (text name) s;
          keys = λ other t. ap has (assign-controllers (text name) glue glue' other h) ∙ t;
          active = λ _.
              named-IsActiveThere name glue' (assign-active name glue glue' h) (elim there [
                | inl e ↦ inl e
                | inr t ↦ inr (ap has (assign-controllers (text name) glue glue' name h) ∙ t)
              ]);
        }

    pub Next-trans : (a b c : Value) → Next a b → Next b c → Next a c
    Next-trans a b c p q = record {
      object = q.object;
      keys = λ name h. q.keys name (p.keys name h);
      active = λ h. q.active (p.active h);
    }
