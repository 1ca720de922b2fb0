-- ===== src/Gui/Guns.antt =====
-- A gun that is saved is loaded again as it was.
pub mod Rows
use machine_controller.Base.{
  ℕ, zero, suc, ◌<◌, ◌≡◌, ◌≢◌, refl, sym, ap, ◌∙◌, Bool, true, false, List, [], ◌∷◌, ◌++◌, length,
  String, Option, none, some, if◌then◌else◌, if_cases, ltb, arith, ◌&&◌,
}
use machine_controller.Base.Int.{ℤ, pos}
use machine_controller.Base.Options.{◌>>=◌, >>=-step, >>=-eq-some, some_inj}
use machine_controller.Config.Defaults.{has}
use machine_controller.Gui.Guns.Rows.{edit_nth-set, WrittenRows, value-found, load_rows-row_values}
use machine_controller.Gui.Json.{
  GuiJson, IsGuiJson, value, value_or, assign, edit, edit_element, edit_nth, index,
}
use machine_controller.Gui.Json.Laws.{
  guarded, put_member_self, put_member_other, assign-put, edit-put, assign_settable, edit_settable,
  index-member, member-settable, str_eq_self,
}
use machine_controller.Gui.Loading.{
  full_row, row_items, load_rows, load_gun_rows, gun_at, show_gun, has_guns,
}
use machine_controller.Gui.Setup.{elements_of}
use machine_controller.Gui.Slots.{row_value, row_values, cell}
use machine_controller.Gui.Store.{four_guns, with_guns, gun_saved, save_gun_in}
use machine_controller.Gui.Window.{TableRow, Tab, Qt, nth}
use text.Mathlib.Text.{◌==◌ as str_eq}

module _ {D : Type 0} (J : GuiJson D) (laws : IsGuiJson J) (Q : Qt D) where
  open J use {editor, double, get_int, get_double, get_flag, elements, is_array, ratio}
  open editor use {Value, object, member, is_object, settable, put, int, array, flag}

  -- The guns that a plan is given or has.
  abbrev pub guns_ready : Value → List Value
  guns_ready plan =
      if has_guns J Q plan then elements (index J plan "guns") else four_guns J true true

  with_guns-ready :
      (plan p1 : Value)
      → with_guns J plan ≡ some p1
      → (g : Value) × ((member p1 "guns" ≡ some g)
          × ((is_array g ≡ true) × (elements g ≡ guns_ready plan)))
  with_guns-ready plan p1 h = split (member plan "guns") refl h
    where
      old :
          (g : Value) (b : Bool)
          → member plan "guns" ≡ some g
          → is_array g ≡ b
          → (if b then some plan else assign J "guns" (array (four_guns J true true)) plan)
            ≡ some p1
          → (g1 : Value) × ((member p1 "guns" ≡ some g1)
              × ((is_array g1 ≡ true)
                  × (elements g1 ≡ (if b then elements g else four_guns J true true))))
      old g true e a h = (g, (ap (λ p. member p "guns") (sym (some_inj plan p1 h)) ∙ e, (a, refl)))
      old g false e a h =
          let (s, made) = assign-put J laws "guns" (array (four_guns J true true)) plan p1 h in
          (
            array (four_guns J true true),
            (
              ap (λ p. member p "guns") made ∙ put_member_self J laws plan "guns" _ s,
              (laws.array_is_array _, laws.array_elements _),
            ),
          )

      split :
          (m : Option Value)
          → member plan "guns" ≡ m
          → (if has m && is_array (value_or J.null m)
              then some plan
              else assign J "guns" (array (four_guns J true true)) plan)
            ≡ some p1
          → (g1 : Value) × ((member p1 "guns" ≡ some g1)
              × ((is_array g1 ≡ true)
                  × (elements g1 ≡ (
                      if has m && is_array (value_or J.null m)
                      then elements (value_or J.null m)
                      else four_guns J true true))))
      split none e h =
          let (s, made) = assign-put J laws "guns" (array (four_guns J true true)) plan p1 h in
          (
            array (four_guns J true true),
            (
              ap (λ p. member p "guns") made ∙ put_member_self J laws plan "guns" _ s,
              (laws.array_is_array _, laws.array_elements _),
            ),
          )
      split (some g) e h = old g (is_array g) e refl h

  show_gun-saved :
      (gun new : Value) (enabled : Bool) (rows : List TableRow) (tab : Tab D)
      → gun_saved J enabled (row_values J Q rows) gun ≡ some new
      → WrittenRows J laws Q rows
      → show_gun J Q (some new) tab ≡ record tab { gun_enabled = enabled; rows = rows }
  unfolding show_gun load_gun_rows
  show_gun-saved gun new enabled rows tab h w =
      let (g1, (e1, e2)) =
        >>=-eq-some (assign J "enabled" (flag enabled) gun)
          (assign J "rows" (array (row_values J Q rows))) new h in
      let (s, made1) = assign-put J laws "enabled" (flag enabled) gun g1 e1 in
      let (s1, made) = assign-put J laws "rows" (array (row_values J Q rows)) g1 new e2 in
      let found : member new "enabled" ≡ some (flag enabled) =
        ap (λ v. member v "enabled") made
        ∙ (put_member_other J laws g1 "rows" "enabled" _ s1 refl
            ∙ (ap (λ v. member v "enabled") made1 ∙ put_member_self J laws gun "enabled" _ s)) in
      let rows_found : member new "rows" ≡ some (array (row_values J Q rows)) =
        ap (λ v. member v "rows") made ∙ put_member_self J laws g1 "rows" _ s1 in
      let loaded : load_gun_rows J Q new ≡ rows =
        ap (λ m. load_rows J Q (elements_of J m)) rows_found
        ∙ (rw (laws.array_is_array (row_values J Q rows))
              (ap (load_rows J Q) (laws.array_elements (row_values J Q rows)))
            ∙ load_rows-row_values J laws Q w) in
      rw
        (
          value-found J laws Q get_flag new (flag enabled) "enabled" true enabled
              (laws.member_is_object new "enabled" (ap has found)) found (laws.flag_get enabled),
          show_gun,
        )
        (ap (λ r. record tab { gun_enabled = enabled; rows = r }) loaded)

  edit_element-array :
      (i : ℕ) (change : Value → Option Value) (v x : Value)
      → edit_element J i change v ≡ some x
      → (ws : List Value) × ((edit_nth i change (elements v) ≡ some ws)
          × (elements_of J (some x) ≡ ws))
  unfolding edit_element
  edit_element-array i change v x h =
      let (a, e) =
        guarded (is_array v) (edit_nth i change (elements v) >>= λ vs. some (array vs)) x h in
      let (ws, (e1, x_is)) =
        >>=-eq-some (edit_nth i change (elements v)) (λ vs. some (array vs)) x e in
      (
        ws,
        (
          e1,
          ap (λ y. elements_of J (some y)) (sym (some_inj (array ws) x x_is))
              ∙ rw (laws.array_is_array ws) (laws.array_elements ws),
        ),
      )

  edit_guns :
      (i : ℕ) (change : Value → Option Value) (p1 plan' : Value) (gs : List Value)
      → elements (index J p1 "guns") ≡ gs
      → i < length gs
      → (if ltb i (length (elements (index J p1 "guns")))
          then edit J "guns" (edit_element J i change) p1
          else some p1)
        ≡ some plan'
      → (ws : List Value) × ((edit_nth i change gs ≡ some ws)
          × (elements_of J (member plan' "guns") ≡ ws))
  edit_guns i change p1 plan' gs ready lt h =
      let in_range : ltb i (length (elements (index J p1 "guns"))) ≡ true =
        ap (λ l. ltb i (length l)) ready ∙ ground (arith, lt) in
      let edited : edit J "guns" (edit_element J i change) p1 ≡ some plan' =
        ap (λ b. if b then edit J "guns" (edit_element J i change) p1 else some p1) (sym in_range)
        ∙ h in
      let (x, (s, (x_made, made))) =
        edit-put J laws "guns" (edit_element J i change) p1 plan' edited in
      let (ws, (e, x_is)) = edit_element-array i change (index J p1 "guns") x x_made in
      (
        ws,
        (
          ap (edit_nth i change) (sym ready) ∙ e,
          ap (λ v. elements_of J (member v "guns")) made
              ∙ (ap (elements_of J) (put_member_self J laws p1 "guns" x s) ∙ x_is),
        ),
      )

  -- A gun that is saved in a plan and loaded again is shown as it was typed, if the plan has the gun, and
  -- the items of its rows are as the window writes numbers. The plan's other guns stay as they are; a
  -- plan with no guns gets four first.
  pub save_gun-loaded :
      (i : ℕ) (enabled : Bool) (rows : List TableRow) (plan plan' : Value) (tab : Tab D)
      → WrittenRows J laws Q rows
      → i < length (guns_ready plan)
      → save_gun_in J i enabled (row_values J Q rows) plan ≡ some plan'
      → (show_gun J Q (gun_at J Q plan' (some i)) tab
          ≡ record tab { gun_enabled = enabled; rows = rows })
        × ((j : ℕ) → j ≢ i → gun_at J Q plan' (some j) ≡ nth (guns_ready plan) j)
  unfolding save_gun_in
  save_gun-loaded i enabled rows plan plan' tab w lt h =
      let change = gun_saved J enabled (row_values J Q rows) in
      let (p1, (e1, e2)) = >>=-eq-some (with_guns J plan) _ plan' h in
      let (g, (g_there, (g_array, g_elements))) = with_guns-ready plan p1 e1 in
      let (ws, (e, guns_are)) =
        edit_guns i change p1 plan' (guns_ready plan)
          (ap elements (index-member J laws p1 "guns" g g_there) ∙ g_elements) lt e2 in
      let (old, new, (changed, (here, others))) = edit_nth-set i change (guns_ready plan) ws e in
      (
        ap (λ l. show_gun J Q (nth l i) tab) guns_are
            ∙ (ap (λ m. show_gun J Q m tab) here
                ∙ show_gun-saved old new enabled rows tab changed w),
        λ j ne. ap (λ l. nth l j) guns_are ∙ others j ne,
      )
