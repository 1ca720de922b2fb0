-- ===== src/Gui/Store/Numbered.antt =====
-- The numbers that the window makes new keys of.
use machine_controller.Base.{
  ℕ, ◌+◌, ◌<◌, ◌≤◌, zero, suc, ◌≡◌, refl, sym, ap, ◌∙◌, Bool, true, false, List, [], ◌∷◌, length,
  String, some, if◌then◌else◌, arith, inl, inr, Bool-cases,
}
use machine_controller.Base.Maps.{lookup}
use machine_controller.Config.Defaults.{has}
use machine_controller.Gui.Store.{first_free, drawn_free}
use text.Mathlib.Text.{◌==◌ as str_eq}
use text.Mathlib.TextEquality.{eq_iff}

-- The first number found is not taken, and all before it are.
pub first_free-is_first :
    (fuel : ℕ) (taken : ℕ → Bool) (id n : ℕ)
    → first_free fuel taken id ≡ some n
    → (taken n ≡ false) × ((m : ℕ) → id ≤ m → m < n → taken m ≡ true)
unfolding first_free
first_free-is_first zero taken id n h = absurd (ground (arith, h))
first_free-is_first (suc fuel) taken id n h = elim (Bool-cases (taken id)) [
  | inl t ↦
      let (free, before) = first_free-is_first fuel taken (id + 1) n (ground (arith, t, h)) in
      (free, λ m le lt. ground (arith, t, before m))
  | inr f ↦
      let same : id ≡ n = ground (arith, f, h) in
      (ap taken (sym same) ∙ f, λ m le lt. absurd (omega arith))
]

pub drawn_free-is_free :
    (taken : ℕ → Bool) (draws : List ℕ) (n : ℕ) → drawn_free taken draws ≡ some n → taken n ≡ false
unfolding drawn_free
drawn_free-is_free taken [] n h = absurd (ground (arith, h))
drawn_free-is_free taken (m ∷ draws) n h = ground (arith, h, drawn_free-is_free taken draws n)

module _ {V : Type 0} where
  without : String → List (String × V) → List (String × V)
  without k [] = []
  without k ((key, v) ∷ rest) = if str_eq key k then without k rest else (key, v) ∷ without k rest

  without-length : (k : String) (es : List (String × V)) → length (without k es) ≤ length es
  unfolding without
  without-length k [] = omega arith
  without-length k ((key, v) ∷ rest) = ground (arith, without-length k rest)

  without-shorter :
      (k : String) (es : List (String × V))
      → has (lookup k es) ≡ true
      → length (without k es) < length es
  unfolding without lookup
  without-shorter k [] h = absurd (ground (arith, h))
  without-shorter k ((key, v) ∷ rest) h =
      ground (arith, h, without-length k rest, without-shorter k rest)

  lookup-without :
      (k other : String) (es : List (String × V))
      → str_eq k other ≡ false
      → lookup other (without k es) ≡ lookup other es
  unfolding without lookup
  lookup-without k other [] h = refl
  lookup-without k other ((key, v) ∷ rest) h =
      ground
        (arith, h, eq_iff key k, eq_iff key other, eq_iff k other, lookup-without k other rest h)

  -- Among one number more than there are keys, one makes a new key.
  pub first_free-total :
      (name : ℕ → String)
      → ((m n : ℕ) → name m ≡ name n → m ≡ n)
      → (fuel : ℕ) (taken : ℕ → Bool) (id : ℕ) (es : List (String × V)) → length es < fuel
      → ((n : ℕ) → id ≤ n → taken n ≡ has (lookup (name n) es))
      → (n : ℕ) × (first_free fuel taken id ≡ some n)
  unfolding first_free
  first_free-total name inj zero taken id es h t = absurd (omega arith)
  first_free-total name inj (suc fuel) taken id es h t = elim (Bool-cases (taken id)) [
    | inr f ↦ (id, rw f refl)
    | inl g ↦
        let there = sym (t id (omega arith)) ∙ g in
        let (n, e) =
          first_free-total name inj fuel taken (id + 1) (without (name id) es)
            (omega (arith, without-shorter (name id) es there))
            (λ n le.
              t n (omega arith)
              ∙ ap has (
                  sym (
                    lookup-without (name id) (name n) es
                      (apart (str_eq (name id) (name n)) refl le)))) in
        (n, ap (λ b. if b then first_free fuel taken (id + 1) else some id) g ∙ e)
  ]
    where
      apart :
          {n : ℕ} (b : Bool)
          → str_eq (name id) (name n) ≡ b
          → id + 1 ≤ n
          → str_eq (name id) (name n) ≡ false
      apart {n} false e le = e
      apart {n} true e le = absurd (omega (arith, inj id n ((eq_iff (name id) (name n)).0 e)))
