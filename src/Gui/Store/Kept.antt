-- ===== src/Gui/Store/Kept.antt =====
-- What a change of one controller makes of the glue settings.
use machine_controller.Base.{◌≡◌, sym, ap, ◌∙◌, true, false, String, Option, some, if◌then◌else◌}
use machine_controller.Base.Options.{◌>>=◌, >>=-eq-some}
use machine_controller.Gui.Json.{GuiJson, IsGuiJson, edit}
use machine_controller.Gui.Json.Laws.{
  has-some, guarded, put_member, put_member_self, put_member_other, edit-put, edit_settable,
  index-member, member-settable,
}
use machine_controller.Gui.Setup.{active_controller}
use machine_controller.Gui.Store.{has_controller, in_controller}
use mathlib.Core.Path.{subst}
use text.Mathlib.Text.{◌==◌ as str_eq}

module _ {D : Type 0} (J : GuiJson D) where
  open J use {editor}
  open editor use {Value, member, is_object, settable, put}

  abbrev pub controller_of : Value → String → Option Value
  controller_of glue name = member glue "controllers" >>= λ cs. member cs name

  -- The second configuration has all that the first has outside of the glue settings.
  abbrev pub OthersKept : Value → Value → Type 0
  OthersKept config config' =
      (key : String) → str_eq "glue" key ≡ false → member config' key ≡ member config key

  -- The second settings have one controller in another form, and else what the first have.
  pub record OneChanged (glue glue' : Value) (name : String) (c : Value) : Type 0 where
    pub controllers :
        (other : String)
        → controller_of glue' other
          ≡ (if str_eq name other then some c else controller_of glue other)
    pub others :
        (key : String) → str_eq "controllers" key ≡ false → member glue' key ≡ member glue key
    pub object : is_object glue' ≡ true

module _ {D : Type 0} (J : GuiJson D) (laws : IsGuiJson J) where
  open J use {editor, get_text}
  open editor use {Value, member, is_object, settable, put}

  pub controller_of-put :
      (glue cs : Value) (other : String)
      → settable glue ≡ true
      → controller_of J (put glue "controllers" cs) other ≡ member cs other
  controller_of-put glue cs other s =
      ap (λ m. m >>= λ v. member v other) (put_member_self J laws glue "controllers" cs s)

  -- A controller is put into the object of all controllers.
  pub put-OneChanged :
      (glue cs : Value) (name : String) (c : Value)
      → member glue "controllers" ≡ some cs
      → settable cs ≡ true
      → OneChanged J glue (put glue "controllers" (put cs name c)) name c
  put-OneChanged glue cs name c e t =
      let s = member-settable J laws glue "controllers" cs e in
      record {
        controllers = λ other.
            controller_of-put glue (put cs name c) other s
            ∙ (put_member J laws cs name other c t
                ∙ ap (λ m. if str_eq name other then some c else (m >>= λ v. member v other))
                    (sym e));
        others =
            λ key apart. put_member_other J laws glue "controllers" key (put cs name c) s apart;
        object = laws.editor_laws.put_is_object glue "controllers" _ s;
      }

  -- A change of a controller that is there.
  pub in_controller-OneChanged :
      (name : String) (change : Value → Option Value) (glue glue' : Value)
      → in_controller J name change glue ≡ some glue'
      → (c c' : Value) × ((controller_of J glue name ≡ some c)
          × ((change c ≡ some c') × OneChanged J glue glue' name c'))
  in_controller-OneChanged name change glue glue' h =
      let (there, e) =
        guarded (has_controller J glue name) (edit J "controllers" (edit J name change) glue) glue'
          h in
      let (c, found) = has-some (controller_of J glue name) there in
      let (cs, (cs_there, c_there)) =
        >>=-eq-some (member glue "controllers") (λ v. member v name) c found in
      let (x, (s, (changed, made))) =
        edit-put J laws "controllers" (edit J name change) glue glue' e in
      let (c', (t, (replaced, put_in))) = edit-put J laws name change cs x (
        ap (edit J name change) (sym (index-member J laws glue "controllers" cs cs_there))
        ∙ changed) in
      (
        c,
        c',
        (
          found,
          (
            ap change (sym (index-member J laws cs name c c_there)) ∙ replaced,
            subst (λ g. OneChanged J glue g name c')
                (sym (made ∙ ap (put glue "controllers") put_in))
                (put-OneChanged glue cs name c' cs_there t),
          ),
        ),
      )

  pub active_controller-is :
      (glue c : Value) (name : String)
      → (member glue "activeController" >>= get_text) ≡ some name
      → controller_of J glue name ≡ some c
      → active_controller J glue ≡ some c
  unfolding active_controller
  active_controller-is glue c name a h =
      let (v, (v_there, v_text)) = >>=-eq-some (member glue "activeController") get_text name a in
      let (cs, (cs_there, c_there)) =
        >>=-eq-some (member glue "controllers") (λ cs. member cs name) c h in
      rw v_there (rw cs_there (rw v_text c_there))

  -- A controller that is changed to `c'`, as settings.
  pub in_controller_there :
      (name : String) (change : Value → Option Value) (glue c c' : Value)
      → controller_of J glue name ≡ some c
      → change c ≡ some c'
      → (glue' : Value) × ((in_controller J name change glue ≡ some glue')
          × OneChanged J glue glue' name c')
  in_controller_there name change glue c c' h e =
      let (cs, (cs_there, c_there)) =
        >>=-eq-some (member glue "controllers") (λ cs. member cs name) c h in
      let t = member-settable J laws cs name c c_there in
      let inner : edit J name change cs ≡ some (put cs name c') =
        edit_settable J laws name change cs c' t
          (ap change (index-member J laws cs name c c_there) ∙ e) in
      let outer : edit J "controllers" (edit J name change) glue
          ≡ some (put glue "controllers" (put cs name c')) =
        edit_settable J laws "controllers" (edit J name change) glue (put cs name c')
          (member-settable J laws glue "controllers" cs cs_there)
          (ap (edit J name change) (index-member J laws glue "controllers" cs cs_there) ∙ inner) in
      (
        put glue "controllers" (put cs name c'),
        (rw h outer, put-OneChanged glue cs name c' cs_there t),
      )
