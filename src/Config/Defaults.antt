-- ===== src/Config/Defaults.antt =====
-- The default settings: the functions `ensureDefault…Settings` and `update…Settings`. The JSON library is
-- a parameter; an exception leaves the configuration as it was, since only the first assignment to it
-- can throw.
use machine_controller.Base.{
  ℕ, ◌≡◌, Bool, true, false, ◌&&◌, List, [], ◌∷◌, String, Option, none, some, if◌then◌else◌,
}
use machine_controller.Base.Int.{ℤ, pos}
use text.Mathlib.Text.{◌==◌ as str_eq}

-- `member v key` is the value of the key, and `put v key x` is `v[key] = x`; `settable` tells an object or
-- null, where this does not throw. `real m n` is the literal m / n.
pub record JsonEditor : Type 1 where
  pub Value : Type 0
  pub object : Value
  pub member : Value → String → Option Value
  pub is_object : Value → Bool
  pub is_empty : Value → Bool
  pub settable : Value → Bool
  pub put : Value → String → Value → Value
  pub text : String → Value
  pub int : ℤ → Value
  pub real : ℕ → ℕ → Value
  pub flag : Bool → Value
  pub array : List Value → Value

-- What is put is found, other keys are as before, and to put what is there changes nothing.
pub record IsEditor (E : JsonEditor) : Type 0 where
  pub put_member :
      (v : E.Value) (key other : String) (x : E.Value)
      → E.settable v ≡ true
      → E.member (E.put v key x) other ≡ (if str_eq key other then some x else E.member v other)
  pub put_same :
      (v : E.Value) (key : String) (x : E.Value) → E.member v key ≡ some x → E.put v key x ≡ v
  pub put_is_object :
      (v : E.Value) (key : String) (x : E.Value)
      → E.settable v ≡ true
      → E.is_object (E.put v key x) ≡ true
  pub empty_is_object : E.is_object E.object ≡ true
  pub object_settable : (v : E.Value) → E.is_object v ≡ true → E.settable v ≡ true

abbrev pub has : {A : Type 0} → Option A → Bool
has none = false
has (some v) = true

module _ (E : JsonEditor) where
  open E use {
    Value, object, member, is_object, is_empty, settable, put, text, int, real, flag, array,
  }

  abbrev pub contains : Value → String → Bool
  contains v key = has (member v key)

  abbrev pub object_or_new : Option Value → Value
  object_or_new none = object
  object_or_new (some v) = if is_object v then v else object

  -- The object at a key, or a new one.
  abbrev pub section : Value → String → Value
  section v key = object_or_new (member v key)

  -- `if (!o.contains(key)) o[key] = x;` for one setting after another.
  unfoldable pub ensure_members : List (String × Value) → Value → Value
  ensure_members [] o = o
  ensure_members ((key, x) ∷ rest) o =
      ensure_members rest (if contains o key then o else put o key x)

  -- Makes a section if it is no object, and changes it.
  unfoldable pub in_section : String → (Value → Value) → Value → Value
  in_section key change root = put root key (change (section root key))

  abbrev pub unless_thrown : (Value → Value) → Value → Value
  unless_thrown change root = if settable root then change root else root

  abbrev pub tests_defaults : List (String × Value)
  tests_defaults =
      ("masterReader", text "communication1")
      ∷ ("reader2", text "communication2")
      ∷ ("sequenceDirection", text "Ascending")
      ∷ ("matchWithReader2", flag false)
      ∷ ("masterInFileCheck", flag false)
      ∷ ("filePath", text "")
      ∷ ("masterSequenceEnabled", flag false)
      ∷ ("masterStartIndex", int (pos 0))
      ∷ ("masterLength", int (pos 1))
      ∷ ("reader1StartIndex", int (pos 0))
      ∷ ("reader2StartIndex", int (pos 0))
      ∷ ("matchLength", int (pos 1))
      ∷ ("fileStartIndex", int (pos 0))
      ∷ ("fileLength", int (pos 1))
      ∷ []

  unfoldable pub ensure_default_tests_settings : Value → Value
  ensure_default_tests_settings = unless_thrown (in_section "tests" (ensure_members tests_defaults))

  abbrev pub machine_defaults : List (String × Value)
  machine_defaults =
      ("numberOfMachinecells", int (pos 20)) ∷ ("barcodeChannelsToShow", int (pos 2)) ∷ []

  unfoldable pub ensure_default_machine_settings : Value → Value
  ensure_default_machine_settings =
      unless_thrown (in_section "machine" (ensure_members machine_defaults))

  abbrev pub port_defaults : String → String → List (String × Value)
  port_defaults port description =
      ("port", text port)
      ∷ ("description", text description)
      ∷ ("baudRate", int (pos 115200))
      ∷ ("parity", text "N")
      ∷ ("dataBits", int (pos 8))
      ∷ ("stopBits", real 1 1)
      ∷ ("stx", int (pos 2))
      ∷ ("etx", int (pos 3))
      ∷ ("trigger", text "t")
      ∷ ("offset", int (pos 0))
      ∷ []

  abbrev pub ensure_ports : Value → Value
  ensure_ports communication =
      in_section "communication2" (ensure_members (port_defaults "COM2" "reader2")) (
        in_section "communication1" (ensure_members (port_defaults "COM1" "reader1")) communication)

  unfoldable pub ensure_default_communication_settings : Value → Value
  ensure_default_communication_settings = unless_thrown (in_section "communication" ensure_ports)

  abbrev pub is_section : Option Value → Bool
  is_section none = false
  is_section (some v) = is_object v

  -- A timer that is no object is replaced.
  unfoldable pub ensure_timer : String → ℤ → String → Value → Value
  ensure_timer name duration description timers =
      if is_section (member timers name)
      then timers
      else put timers name
          (put (put object "duration" (int duration)) "description" (text description))

  abbrev pub ensure_timers : Value → Value
  ensure_timers timers = ensure_timer "timer3" (pos 5000) "General purpose timer 3" (
      ensure_timer "timer2" (pos 2000) "General purpose timer 2"
        (ensure_timer "timer1" (pos 1000) "General purpose timer 1" timers))

  unfoldable pub ensure_default_timer_settings : Value → Value
  ensure_default_timer_settings = unless_thrown (in_section "timers" ensure_timers)

  abbrev pub default_gun : ℤ → Value
  default_gun i = put (put (put object "gunId" (int i)) "enabled" (flag false)) "rows" (array [])

  abbrev pub default_plan : Value
  default_plan =
      put (put (put object "name" (text "Default Plan")) "sensorOffset" (int (pos 10))) "guns" (
        array (
          default_gun (pos 1)
          ∷ default_gun (pos 2)
          ∷ default_gun (pos 3)
          ∷ default_gun (pos 4)
          ∷ []))

  abbrev pub default_controller : Value
  default_controller =
      put
        (put
          (put
            (put
              (put
                (put (put object "name" (text "New Controller")) "communication"
                  (text "communication1"))
                "type" (text "dots"))
              "encoder" (real 1 1))
            "pageLength" (int (pos 100)))
          "enabled" (flag true))
        "plans" (put object "plan_1" default_plan)

  -- A controller is made if there is none.
  abbrev pub ensure_controllers : Value → Value
  ensure_controllers glue =
      let controllers : Value = section glue "controllers" in
      let found : Value = put glue "controllers" controllers in
      if is_empty controllers
      then put (put found "activeController" (text "controller_1")) "controllers"
          (put controllers "controller1" default_controller)
      else found

  unfoldable pub ensure_default_glue_settings : Value → Value
  ensure_default_glue_settings = unless_thrown (in_section "glue" ensure_controllers)

  -- `update…Settings` of the section `key`
  unfoldable pub update_settings : String → Value → Value → Value
  update_settings key settings root =
      if is_object settings && settable root then put root key settings else root
