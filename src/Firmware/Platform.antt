-- ===== src/Firmware/Platform.antt =====
-- What GlueController.cpp uses of its tool chain: `double` arithmetic and the ArduinoJson library.
-- Both are outside of the repository, so they are parameters of the model.
use machine_controller.Base.{ℕ, Bool, List, Option, String, Bytes}
use machine_controller.Base.Int.{ℤ}

-- `Double` is the type of the `double` values, `ratio m n` the literal m / n, `to_int` and
-- `to_ulong` the casts, and `lt` the test `<`.
pub record Reals : Type 1 where
  pub Double : Type 0
  pub ratio : ℕ → ℕ → Double
  pub of_int : ℤ → Double
  pub to_int : Double → ℤ
  pub to_ulong : Double → ℕ
  pub add : Double → Double → Double
  pub mul : Double → Double → Double
  pub div : Double → Double → Double
  pub lt : Double → Double → Bool

-- `parse` is `deserializeJson`. `text j k d`, `flag`, `int` and `number` are `j[k] | d`; `array` is
-- the elements of `j[k]`, and `float` is `j[k].as<float>()`. `lower_case` is `String::toLowerCase`.
pub record Json (D : Type 0) : Type 1 where
  pub Value : Type 0
  pub parse : Bytes → Option Value
  pub contains : Value → String → Bool
  pub text : Value → String → String → String
  pub flag : Value → String → Bool → Bool
  pub int : Value → String → ℤ → ℤ
  pub number : Value → String → D → D
  pub array : Value → String → List Value
  pub float : Value → String → D
  pub lower_case : String → String
