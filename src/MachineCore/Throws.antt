-- ===== src/MachineCore/Throws.antt =====
-- When `step` ends in an exception.
use machine_controller.Base.{Bool, true, false, ◌&&◌, Option, none, some}
use machine_controller.MachineCore.Types.{JsonValue, CommCellMessage}
use machine_controller.MachineCore.Step.{Outcome, done, threw, is_calibration}

unfoldable pub has_thrown : Outcome → Bool
has_thrown (done fx c) = false
has_thrown (threw c) = true

abbrev pub is_none {ℓ} : {A : Type ℓ} → Option A → Bool
is_none none = true
is_none (some a) = false

module _ (J : JsonValue) where
  open J use {Value, contains, get_int}

  -- A calibration result with a count of pulses from which `get<int>()` throws.
  abbrev pub has_bad_count : Option (CommCellMessage Value) → Bool
  has_bad_count none = false
  has_bad_count (some m) = is_calibration J m.parsed && elim m.parsed [
    | none ↦ false
    | some v ↦ contains v "pulsesPerPage" && is_none (get_int v "pulsesPerPage")
  ]
