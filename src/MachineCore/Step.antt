-- ===== src/MachineCore/Step.antt =====
-- One cycle of the machine core: `DefaultMachineCore::step`.
use machine_controller.Base.{
  Bool, true, false, not, ◌&&◌, [], ◌∷◌, ◌++◌, String, Option, none, some, ltb, if◌then◌else◌,
}
use machine_controller.Base.Int.{pos, eqb_ℤ, pos_part, leb_ℤ}
use machine_controller.Base.Maps.{lookup}
use machine_controller.MachineCore.Types.{
  IoChannel, IoEventType, rising, TimerEdge, JsonValue, CommCellMessage, CycleInputs, CycleEffects,
  start, CalibrationResult,
}
use machine_controller.MachineCore.State.{DefaultMachineCore}
use machine_controller.MachineCore.Store.{ensure_port_capacity, shift_right_port, write_cell}

-- What a call leaves: effects and the new state, or an exception and the state at that point.
pub data Outcome : Type 0 where
  done : CycleEffects → DefaultMachineCore → Outcome
  threw : DefaultMachineCore → Outcome

abbrev pub no_effects : CycleEffects
no_effects = record {
  output_changes = [];
  timer_cmds = [];
  comm_sends = [];
  barcode_store_changed = false;
  calibration = none;
}

abbrev pub timer_rose : Option TimerEdge → Bool
timer_rose none = false
timer_rose (some t) = t.rising

abbrev pub is_rising : IoEventType → Bool
is_rising rising = true
is_rising _ = false

abbrev pub rose : Option IoChannel → Bool
rose none = false
rose (some ch) = is_rising ch.event_type

abbrev pub is_low : Option IoChannel → Bool
is_low none = false
is_low (some ch) = eqb_ℤ ch.state (pos 0)

-- The blinking LED.
unfoldable pub step_led :
    Bool → CycleEffects → DefaultMachineCore → CycleEffects × DefaultMachineCore
step_led edge fx c =
    if c.blink_led0 && edge
    then (
      record fx {
        output_changes =
            fx.output_changes ++ (("o0", if not c.last_led_state then pos 1 else pos 0) ∷ []);
        timer_cmds = fx.timer_cmds ++ (start "timer1" ∷ []);
      },
      record c { last_led_state = not c.last_led_state },
    )
    else if not c.blink_led0
    then (record fx { output_changes = fx.output_changes ++ (("o0", pos 0) ∷ []) }, c)
    else (fx, c)

-- The start condition.
unfoldable pub step_start : Option IoChannel → Option IoChannel → CycleEffects → CycleEffects
step_start i8 i9 fx =
    if rose i8 && is_low i9
    then record fx { output_changes = fx.output_changes ++ (("startRelay", pos 1) ∷ []) }
    else fx

-- The shift of the first port's messages.
unfoldable pub step_shift : Option IoChannel → CycleEffects → DefaultMachineCore → Outcome
step_shift i8 fx c =
    if rose i8
    then done (record fx { barcode_store_changed = true }) (shift_right_port "communication1" 1 c)
    else done fx c

module _ (J : JsonValue) where
  open J use {Value, contains, equals, get_int}

  unfoldable pub is_calibration : Option Value → Bool
  is_calibration none = false
  is_calibration (some v) = contains v "type" && equals v "type" "calibration_result"

  -- `none` is the exception of `get<int>`.
  unfoldable pub calibration_of : String → Value → Option (Option CalibrationResult)
  calibration_of port v =
      if contains v "pulsesPerPage"
      then elim (get_int v "pulsesPerPage") [
        | none ↦ none
        | some n ↦ some (some (record { pulses_per_page = n; comm_name = port }))
      ]
      else some none

  unfoldable pub store_message :
      CommCellMessage Value → CycleEffects → DefaultMachineCore → CycleEffects × DefaultMachineCore
  store_message m fx c =
      let c' : DefaultMachineCore = ensure_port_capacity m.comm_name c in
      if leb_ℤ (pos 0) m.offset && ltb (pos_part m.offset) c'.capacity
      then (
        record fx { barcode_store_changed = true },
        write_cell m.comm_name (pos_part m.offset) m.raw c',
      )
      else (fx, c')

  unfoldable pub step_calibration :
      String → Option Value → Option IoChannel → CycleEffects → DefaultMachineCore → Outcome
  step_calibration port none i8 fx c = step_shift i8 fx c
  step_calibration port (some v) i8 fx c = elim (calibration_of port v) [
    | none ↦ threw c
    | some result ↦ step_shift i8 (record fx { calibration = result }) c
  ]

  unfoldable pub step_message :
      Option (CommCellMessage Value)
      → Option IoChannel
      → CycleEffects
      → DefaultMachineCore
      → Outcome
  step_message none i8 fx c = step_shift i8 fx c
  step_message (some m) i8 fx c =
      if is_calibration m.parsed
      then step_calibration m.comm_name m.parsed i8 fx c
      else (let (fx', c') = store_message m fx c in step_shift i8 fx' c')

  unfoldable pub step : CycleInputs Value → DefaultMachineCore → Outcome
  step inp c =
      let (fx, c') = step_led (timer_rose (lookup "timer1" inp.timer_edges)) no_effects c in
      let i8 = lookup "i8" inp.inputs in
      step_message inp.new_comm_msg i8 (step_start i8 (lookup "i9" inp.inputs) fx) c'
