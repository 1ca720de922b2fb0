-- ===== src/Base/Options.antt =====
-- Fallible steps in a row.
use mathlib.Core.Path.{◌≡◌, refl, sym, ap, ◌∙◌}
use mathlib.Core.Option.{Option, none, some}
use native.Mathlib.Omega.{arith}

infixl 5 ◌>>=◌
abbrev pub ◌>>=◌ {ℓ κ} : {A : Type ℓ} {B : Type κ} → Option A → (A → Option B) → Option B
none >>= f = none
some a >>= f = f a

-- A chain that returns made its first step.
pub >>=-eq-some {ℓ κ} :
    {A : Type ℓ} {B : Type κ} (m : Option A) (f : A → Option B) (b : B)
    → (m >>= f) ≡ some b
    → (a : A) × ((m ≡ some a) × (f a ≡ some b))
>>=-eq-some none f b h = ground arith
>>=-eq-some (some a) f b h = (a, (refl, h))

-- What is left of a chain whose first step is known.
pub >>=-rest {ℓ κ} :
    {A : Type ℓ} {B : Type κ} (m : Option A) (a : A) (f : A → Option B) (r : Option B)
    → m ≡ some a
    → (m >>= f) ≡ r
    → f a ≡ r
>>=-rest m a f r e h = ap (λ x. x >>= f) (sym e) ∙ h

pub some_inj {ℓ} : {A : Type ℓ} (a b : A) → some a ≡ some b → a ≡ b
some_inj a b h = ground arith

-- A chain whose first step is known returns what is left of it.
pub >>=-step {ℓ κ} :
    {A : Type ℓ} {B : Type κ} (m : Option A) (a : A) (f : A → Option B) (r : Option B)
    → m ≡ some a
    → f a ≡ r
    → (m >>= f) ≡ r
>>=-step m a f r e h = ap (λ x. x >>= f) e ∙ h
