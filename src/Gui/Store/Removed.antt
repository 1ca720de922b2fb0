-- ===== src/Gui/Store/Removed.antt =====
-- The controller that the remove button removes.
use machine_controller.Base.{
  ◌⊎◌, inl, inr, Bool-cases, ◌≡◌, refl, sym, ap, ◌∙◌, true, false, List, [], ◌∷◌, String, none,
  some, if◌then◌else◌, arith,
}
use machine_controller.Base.Maps.{lookup}
use machine_controller.Base.Options.{◌>>=◌, >>=-step, >>=-eq-some}
use machine_controller.Config.Defaults.{has}
use machine_controller.Gui.Json.{GuiJson, IsGuiJson, value_or, assign, edit, index}
use machine_controller.Gui.Json.Laws.{
  put_member_self, put_member_other, assign_settable, edit_settable, index-member, member-settable,
  str_eq_self,
}
use machine_controller.Gui.Store.{next_key, remove_controller, without_controller}
use machine_controller.Gui.Store.Kept.{controller_of}
use text.Mathlib.Text.{◌==◌ as str_eq}
use text.Mathlib.TextEquality.{eq_iff}

-- Where there is an entry, and none has the removed key, the next key is that of an entry.
next_key-there :
    {V : Type 0} (removed other : String) (es : List (String × V))
    → lookup removed es ≡ none
    → has (lookup other es) ≡ true
    → has (lookup (next_key removed es) es) ≡ true
unfolding next_key lookup
next_key-there removed other [] gone h = absurd (ground (arith, h))
next_key-there removed other ((key, v) ∷ rest) gone h =
    ground (arith, gone, eq_iff key key, eq_iff key removed)

-- The next key is that of an entry, or empty.
next_key-known :
    {V : Type 0} (removed : String) (es : List (String × V))
    → (next_key removed es ≡ "") ⊎ (has (lookup (next_key removed es) es) ≡ true)
unfolding next_key lookup
next_key-known removed [] = inl refl
next_key-known removed ((key, v) ∷ rest) = elim (Bool-cases (str_eq key removed)) [
  | inl same ↦ (elim (next_key-known removed rest) [
    | inl e ↦ inl (ground (arith, same, e))
    | inr h ↦ inr (ground (arith, same, h))
  ])
  | inr apart ↦ inr (ground (arith, apart, eq_iff key key))
]

module _ {D : Type 0} (J : GuiJson D) where
  open J use {editor, entries, erase}
  open editor use {Value, object, member, is_object, settable, put, text}

  -- The second settings lack a controller, name a controller as active while there is one, and have else
  -- what the first have.
  pub record Removed (glue glue' : Value) (name next : String) : Type 0 where
    pub controllers :
        (other : String)
        → controller_of J glue' other
          ≡ (if str_eq name other then none else controller_of J glue other)
    pub active : member glue' "activeController" ≡ some (text next)
    pub next_there :
        (other : String)
        → has (controller_of J glue' other) ≡ true
        → has (controller_of J glue' next) ≡ true
    pub next_known : (next ≡ "") ⊎ (has (controller_of J glue' next) ≡ true)
    pub others :
        (key : String)
        → str_eq "controllers" key ≡ false
        → str_eq "activeController" key ≡ false
        → member glue' key ≡ member glue key
    pub object : is_object glue' ≡ true

  module _ (laws : IsGuiJson J) where
    erased : Value → String → Value → Value
    erased glue name cs =
        let g1 = put glue "controllers" (erase cs name) in
        put g1 "activeController" (text (next_key name (entries (erase cs name))))

    erased-inside :
        (glue cs : Value) (name other : String)
        → member glue "controllers" ≡ some cs
        → controller_of J (erased glue name cs) other ≡ member (erase cs name) other
    unfolding erased
    erased-inside glue cs name other e =
        let s = member-settable J laws glue "controllers" cs e in
        let g1 = put glue "controllers" (erase cs name) in
        let s1 =
          laws.editor_laws.object_settable g1
            (laws.editor_laws.put_is_object glue "controllers" (erase cs name) s) in
        ap (λ m. m >>= λ v. member v other)
          (put_member_other J laws g1 "activeController" "controllers" _ s1 refl
            ∙ put_member_self J laws glue "controllers" (erase cs name) s)

    next_key-erased :
        (cs : Value) (name other : String)
        → is_object cs ≡ true
        → has (member (erase cs name) other) ≡ true
        → has (member (erase cs name) (next_key name (entries (erase cs name)))) ≡ true
    next_key-erased cs name other o h =
        let cs' = erase cs name in
        let look = λ (k : String). laws.entries_member cs' k (laws.erase_is_object cs name o) in
        ap has (sym (look (next_key name (entries cs'))))
        ∙ next_key-there name other (entries cs')
            (look name ∙ (laws.erase_member cs name name o ∙ rw (str_eq_self name) refl))
            (ap has (look other) ∙ h)

    erased-Removed :
        (glue cs : Value) (name : String)
        → member glue "controllers" ≡ some cs
        → is_object cs ≡ true
        → Removed glue (erased glue name cs) name (next_key name (entries (erase cs name)))
    unfolding erased
    erased-Removed glue cs name e o =
        let s = member-settable J laws glue "controllers" cs e in
        let g1 = put glue "controllers" (erase cs name) in
        let next = next_key name (entries (erase cs name)) in
        let s1 =
          laws.editor_laws.object_settable g1
            (laws.editor_laws.put_is_object glue "controllers" (erase cs name) s) in
        record {
          controllers = λ other.
              erased-inside glue cs name other e
              ∙ (laws.erase_member cs name other o
                  ∙ ap (λ m. if str_eq name other then none else (m >>= λ v. member v other))
                      (sym e));
          active = put_member_self J laws g1 "activeController" (text next) s1;
          next_there = λ other there.
              ap has (erased-inside glue cs name next e)
              ∙ next_key-erased cs name other o
                  (ap has (sym (erased-inside glue cs name other e)) ∙ there);
          next_known = elim (next_key-known name (entries (erase cs name))) [
            | inl e ↦ inl e
            | inr h ↦ inr (
                ap has (
                  erased-inside glue cs name next e
                  ∙ sym (laws.entries_member (erase cs name) next (laws.erase_is_object cs name o)))
                ∙ h)
          ];
          others = λ key apart active_apart.
              put_member_other J laws g1 "activeController" key (text next) s1 active_apart
              ∙ put_member_other J laws glue "controllers" key (erase cs name) s apart;
          object = laws.editor_laws.put_is_object g1 "activeController" (text next) s1;
        }

    pub remove_controller-Removed :
        (glue c : Value) (name : String)
        → controller_of J glue name ≡ some c
        → (next : String) × ((glue' : Value) × ((remove_controller J name glue ≡ some (next, glue'))
              × Removed glue glue' name next))
    unfolding remove_controller erased
    remove_controller-Removed glue c name h =
        let (cs, (e, there)) = >>=-eq-some (member glue "controllers") (λ v. member v name) c h in
        let o = laws.member_is_object cs name (ap has there) in
        let s = member-settable J laws glue "controllers" cs e in
        let g1 = put glue "controllers" (erase cs name) in
        let next = next_key name (entries (erase cs name)) in
        let s1 =
          laws.editor_laws.object_settable g1
            (laws.editor_laws.put_is_object glue "controllers" (erase cs name) s) in
        let cut : edit J "controllers" (λ v. some (erase v name)) glue ≡ some g1 =
          edit_settable J laws "controllers" (λ v. some (erase v name)) glue (erase cs name) s
            (ap (λ v. some (erase v name)) (index-member J laws glue "controllers" cs e)) in
        let index1 : index J g1 "controllers" ≡ erase cs name =
          ap (value_or J.null) (put_member_self J laws glue "controllers" (erase cs name) s) in
        let g2 = put g1 "activeController" (text next) in
        (
          next,
          (
            g2,
            (
              ap (λ b. if b then without_controller J name glue else none) (ap has h)
                  ∙ >>=-step (edit J "controllers" (λ v. some (erase v name)) glue) g1 _
                      (some (next, g2)) cut
                      (ap (λ k. assign J "activeController" (text k) g1 >>= λ g. some (k, g))
                          (ap (λ v. next_key name (entries v)) index1)
                        ∙ ap (λ m. m >>= λ g. some (next, g))
                            (assign_settable J laws "activeController" (text next) g1 s1)),
              erased-Removed glue cs name e o,
            ),
          ),
        )
