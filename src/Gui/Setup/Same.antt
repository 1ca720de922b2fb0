-- ===== src/Gui/Setup/Same.antt =====
-- On what of a controller its setup message depends.
use machine_controller.Base.{◌≡◌, refl, true, false, String, Option}
use machine_controller.Base.Int.{pos}
use machine_controller.Gui.Json.{GuiJson, value}
use machine_controller.Gui.Setup.{
  controller_enabled, plan_guns, setup_with, setup_of, plan_at, guns_of,
}
use text.Mathlib.Text.{◌==◌ as str_eq}

module _ {D : Type 0} (J : GuiJson D) where
  open J use {editor}
  open editor use {Value, member, is_object}

  -- Two controllers with the same guns in their plans and the same members but these.
  pub record SameSetup (c c' : Value) : Type 0 where
    pub before : is_object c ≡ true
    pub after : is_object c' ≡ true
    pub members : (key : String) → str_eq "plans" key ≡ false → member c' key ≡ member c key
    pub guns : (plan : String) → guns_of J (plan_at J c' plan) ≡ guns_of J (plan_at J c plan)

  value-same :
      {A : Type 0} (get : Value → Option A) (c c' : Value) (key : String) (d : A)
      → SameSetup c c'
      → str_eq "plans" key ≡ false
      → value J get c' key d ≡ value J get c key d
  unfolding value
  value-same get c c' key d s apart = rw s.before (rw s.after (rw (s.members key apart) refl))

  pub setup_of-same : (c c' : Value) → SameSetup c c' → setup_of J c' ≡ setup_of J c
  unfolding setup_of setup_with plan_guns controller_enabled
  setup_of-same c c' s = simp (
    s.members "enabled" refl,
    s.guns,
    value-same J.get_text c c' "type" "glue" s refl,
    value-same J.get_double c c' "encoder" (J.ratio 1 1) s refl,
    value-same J.get_int c c' "sensorOffset" (pos 10) s refl,
    value-same J.get_text c c' "communication" "" s refl,
    value-same J.get_text c c' "activePlan" "" s refl,
    value-same J.get_double c c' "startCurrent" (J.ratio 1 1) s refl,
    value-same J.get_double c c' "startDurationMS" (J.ratio 5 10) s refl,
    value-same J.get_double c c' "holdCurrent" (J.ratio 5 10) s refl,
    value-same J.get_text c c' "dotSize" "small" s refl,
  )
