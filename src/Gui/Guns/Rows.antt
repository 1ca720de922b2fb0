-- ===== src/Gui/Guns/Rows.antt =====
-- The rows of a gun, from the table and back.
use machine_controller.Base.{
  ℕ, zero, suc, ◌≡◌, ◌≢◌, refl, sym, ap, ◌∙◌, true, List, [], ◌∷◌, String, Option, some, arith,
}
use machine_controller.Base.Int.{ℤ, pos}
use machine_controller.Base.Options.{>>=-eq-some, some_inj}
use machine_controller.Gui.Json.{GuiJson, IsGuiJson, value, edit_nth}
use machine_controller.Gui.Json.Laws.{put_member_self, put_member_other}
use machine_controller.Gui.Loading.{full_row, row_items, load_rows}
use machine_controller.Gui.Slots.{row_value, row_values}
use machine_controller.Gui.Window.{TableRow, Qt, nth}

pub edit_nth-set :
    {A : Type 0} (i : ℕ) (f : A → Option A) (vs ws : List A)
    → edit_nth i f vs ≡ some ws
    → (old new : A) × ((f old ≡ some new)
        × ((nth ws i ≡ some new) × ((j : ℕ) → j ≢ i → nth ws j ≡ nth vs j)))
unfolding edit_nth
edit_nth-set i f [] ws h = absurd (ground (arith, h))
edit_nth-set {A} zero f (v ∷ vs) ws h =
    let (new, (e, made)) = >>=-eq-some (f v) (λ b. some (b ∷ vs)) ws h in
    let same : new ∷ vs ≡ ws = some_inj (new ∷ vs) ws made in
    (
      v,
      new,
      (e, (ap (λ l. nth l 0) (sym same), λ j ne. ap (λ l. nth l j) (sym same) ∙ tail new j ne)),
    )
  where
    tail : (new : A) (j : ℕ) → j ≢ zero → nth (new ∷ vs) j ≡ nth (v ∷ vs) j
    tail new zero ne = absurd (ne refl)
    tail new (suc j) ne = refl
edit_nth-set {A} (suc i) f (v ∷ vs) ws h =
    let (rest, (e, made)) = >>=-eq-some (edit_nth i f vs) (λ bs. some (v ∷ bs)) ws h in
    let same : v ∷ rest ≡ ws = some_inj (v ∷ rest) ws made in
    let (old, new, (changed, (here, others))) = edit_nth-set i f vs rest e in
    (
      old,
      new,
      (
        changed,
        (
          ap (λ l. nth l (suc i)) (sym same) ∙ here,
          λ j ne. ap (λ l. nth l j) (sym same) ∙ tail rest others j ne,
        ),
      ),
    )
  where
    tail :
        (rest : List A)
        → ((j : ℕ) → j ≢ i → nth rest j ≡ nth vs j)
        → (j : ℕ) → j ≢ suc i
        → nth (v ∷ rest) j ≡ nth (v ∷ vs) j
    tail rest others zero ne = refl
    tail rest others (suc j) ne = others j (λ e. ne (ap suc e))

module _ {D : Type 0} (J : GuiJson D) (laws : IsGuiJson J) (Q : Qt D) where
  open J use {editor, double, get_int, get_double, get_flag, elements, is_array, ratio}
  open editor use {Value, object, member, is_object, settable, put, int, array, flag}
  open Q use {int_text, real_text, to_int, to_double}

  -- A row whose items are texts as the window writes them.
  pub data WrittenRows : List TableRow → Type 0 where
    no_rows : WrittenRows []
    written :
        {rows : List TableRow} (from to space : String)
        → int_text (to_int from) ≡ from
        → int_text (to_int to) ≡ to
        → real_text (to_double space) ≡ space
        → WrittenRows rows
        → WrittenRows (full_row from to space ∷ rows)

  stored_row : Value → Value → Value → Value
  stored_row from to space = put (put (put object "from" from) "to" to) "space" space

  stored_row-members :
      (from to space : Value)
      → let row = stored_row from to space in
        (is_object row ≡ true)
        × ((member row "from" ≡ some from)
            × ((member row "to" ≡ some to) × (member row "space" ≡ some space)))
  unfolding stored_row
  stored_row-members from to space =
      let e = laws.editor_laws in
      let r1 = put object "from" from in
      let r2 = put r1 "to" to in
      let s0 = e.object_settable object e.empty_is_object in
      let s1 = e.object_settable r1 (e.put_is_object object "from" from s0) in
      let s2 = e.object_settable r2 (e.put_is_object r1 "to" to s1) in
      (
        e.put_is_object r2 "space" space s2,
        (
          put_member_other J laws r2 "space" "from" space s2 refl
              ∙ (put_member_other J laws r1 "to" "from" to s1 refl
                  ∙ put_member_self J laws object "from" from s0),
          (
            put_member_other J laws r2 "space" "to" space s2 refl
                ∙ put_member_self J laws r1 "to" to s1,
            put_member_self J laws r2 "space" space s2,
          ),
        ),
      )

  pub value-found :
      {A : Type 0} (get : Value → Option A) (v x : Value) (key : String) (d a : A)
      → is_object v ≡ true
      → member v key ≡ some x
      → get x ≡ some a
      → value J get v key d ≡ some a
  unfolding value
  value-found get v x key d a o m g = rw o (rw m g)

  row_items-stored_row :
      (from to : ℤ) (space : D)
      → row_items J Q (stored_row (int from) (int to) (double space))
        ≡ (full_row (int_text from) (int_text to) (real_text space), true)
  unfolding row_items
  row_items-stored_row from to space =
      let row = stored_row (int from) (int to) (double space) in
      let (o, (f, (t, s))) = stored_row-members (int from) (int to) (double space) in
      rw (value-found get_int row (int from) "from" (pos 0) from o f (laws.int_get from), row_items)
        (rw (value-found get_int row (int to) "to" (pos 100) to o t (laws.int_get to), row_items)
          (rw
            (
              value-found get_double row (double space) "space" (ratio 5 1) space o s
                  (laws.double_get space),
              row_items,
            )
            refl))

  pub load_rows-row_values :
      {rows : List TableRow} → WrittenRows rows → load_rows J Q (row_values J Q rows) ≡ rows
  unfolding load_rows row_values row_value stored_row
  load_rows-row_values no_rows = refl
  load_rows-row_values (written {rows = rows} from to space f t s w) =
      rw (row_items-stored_row (to_int from) (to_int to) (to_double space))
        (rw (load_rows-row_values w) (rw f (rw t (rw s refl))))
