-- ===== src/Protocol/Reading.antt =====
-- What the firmware's JSON library reads in a message that the program's library has printed. Both are
-- outside of the repository: the laws say that a reader finds the values that were assigned.
use machine_controller.Base.{◌≡◌, Bool, true, false, List, [], ◌∷◌, String, Option, none, some}
use machine_controller.Base.Int.{ℤ, pos}
use machine_controller.Base.Maps.{Map, lookup}
use machine_controller.Firmware.Platform.{Json}
use machine_controller.Protocol.{Field, str, whole, truth, real, items, Row, GunPart, Message}

-- The numbers read: a `double` that went through its decimal digits, also as a `float`, and an `int` as
-- a `double` or `float`.
pub record Rounding (D : Type 0) : Type 0 where
  pub double : D → D
  pub float : D → D
  pub double_int : ℤ → D
  pub float_int : ℤ → D

-- The elements of two lists stand in a relation, one by one.
pub data Pairs {A B : Type 0} (P : A → B → Type 0) : List A → List B → Type 0 where
  no_pairs : Pairs P [] []
  pair :
      {a : A} {b : B} {xs : List A} {ys : List B}
      → P a b
      → Pairs P xs ys
      → Pairs P (a ∷ xs) (b ∷ ys)

module _ {D A : Type 0} where
  abbrev pub is_member : Option (Field D A) → Bool
  is_member none = false
  is_member (some f) = true

  -- `j[k] | d`: the value if it has the type of `d`.
  abbrev pub text_or : Option (Field D A) → String → String
  text_or (some (str s)) d = s
  text_or f d = d

  abbrev pub flag_or : Option (Field D A) → Bool → Bool
  flag_or (some (truth b)) d = b
  flag_or f d = d

  abbrev pub int_or : Option (Field D A) → ℤ → ℤ
  int_or (some (whole n)) d = n
  int_or f d = d

  abbrev pub elements : Option (Field D A) → List A
  elements (some (items xs)) = xs
  elements f = []

  abbrev pub number_or : Rounding D → Option (Field D A) → D → D
  number_or r (some (real x)) d = r.double x
  number_or r (some (whole n)) d = r.double_int n
  number_or r f d = d

  -- `as<float>()` is 0 for what is no number.
  abbrev pub float_of : Rounding D → Option (Field D A) → D
  float_of r (some (real x)) = r.float x
  float_of r (some (whole n)) = r.float_int n
  float_of r f = r.float_int (pos 0)

module _ {D : Type 0} (J : Json D) (r : Rounding D) where
  open J use {Value, contains, text, flag, int, number, array, float}

  -- `v` is read as the object `o` was built; `P` relates the elements of arrays.
  pub record Reads {A : Type 0} (P : Value → A → Type 0) (v : Value) (o : Map (Field D A))
      : Type 0 where
    pub members : (k : String) → contains v k ≡ is_member (lookup k o)
    pub texts : (k d : String) → text v k d ≡ text_or (lookup k o) d
    pub flags : (k : String) (d : Bool) → flag v k d ≡ flag_or (lookup k o) d
    pub ints : (k : String) (d : ℤ) → int v k d ≡ int_or (lookup k o) d
    pub numbers : (k : String) (d : D) → number v k d ≡ number_or r (lookup k o) d
    pub floats : (k : String) → float v k ≡ float_of r (lookup k o)
    pub arrays : (k : String) → Pairs P (array v k) (elements (lookup k o))

  abbrev pub ReadsRow : Value → Row D → Type 0
  ReadsRow = Reads (λ v u. Unit)

  abbrev pub ReadsGun : Value → GunPart D → Type 0
  ReadsGun = Reads ReadsRow

  abbrev pub ReadsMessage : Value → Message D → Type 0
  ReadsMessage = Reads ReadsGun
