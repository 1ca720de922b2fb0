-- ===== src/Logic/Cycle.antt =====
-- `oneLogicCycle`: what the core is given, and how its effects are carried out.
use machine_controller.Base.{
  ℕ, ◌+◌, Bool, true, false, not, ◌&&◌, ◌||◌, List, [], ◌∷◌, String, Option, none, some, ltb,
  if◌then◌else◌,
}
use machine_controller.Base.Int.{ℤ, pos, leb_ℤ}
use machine_controller.Base.Maps.{Map, lookup, insert}
use machine_controller.MachineCore.Types.{
  IoChannel, none_edge, rising, falling, TimerEdge, TimerSnapshot, JsonValue, CommCellMessage,
  CycleInputs, TimerCmd, start, start_with, stop, CommSend, CalibrationResult, CycleEffects,
}
use machine_controller.MachineCore.State.{DefaultMachineCore}
use machine_controller.MachineCore.Store.{barcode_store_snapshot}
use machine_controller.MachineCore.Step.{done, threw, step}
use machine_controller.Logic.State.{
  Timer, calibration_response, barcode_store_updated, start_timer_for, cancel_timer, send, Logic,
  Fresh, act, write_outputs,
}
use text.Mathlib.Text.{◌==◌ as str_eq}

-- Only timers with an edge are handed to the core as edges.
unfoldable pub timer_edges : Map Timer → Map TimerEdge
timer_edges [] = []
timer_edges ((name, t) ∷ rest) = elim t.event_type [
  | none_edge ↦ timer_edges rest
  | rising ↦ (name, record { rising = true; falling = false }) ∷ timer_edges rest
  | falling ↦ (name, record { rising = false; falling = true }) ∷ timer_edges rest
]

unfoldable pub timers_snapshot : Map Timer → Map TimerSnapshot
timers_snapshot [] = []
timers_snapshot ((name, t) ∷ rest) =
    (name, record { duration_ms = t.duration; state = t.state; event_type = t.event_type })
    ∷ timers_snapshot rest

-- The reset of the timers' edges at the end of a cycle.
unfoldable pub reset_timers : Map Timer → Map Timer
reset_timers [] = []
reset_timers ((name, t) ∷ rest) =
    (name, record t { event_type = none_edge; state = pos 0 }) ∷ reset_timers rest

-- `m[name]`, which makes an entry where there is none.
abbrev pub value_or {ℓ} : {V : Type ℓ} → Option V → V → V
value_or none v = v
value_or (some w) v = w

unfoldable pub has_port : String → List String → Bool
has_port name [] = false
has_port name (p ∷ ps) = str_eq p name || has_port name ps

abbrev pub too_early : ℕ → Option ℕ → Bool
too_early now none = false
too_early now (some t) = ltb now (t + 50)

module _ {J : Type 0} where
  unfoldable pub start_timer : String → Logic J → Logic J
  start_timer name l = elim (lookup name l.timers) [
    | none ↦ l
    | some t ↦ if leb_ℤ t.duration (pos 0) then l else act (start_timer_for name t.duration) l
  ]

  unfoldable pub stop_timer : String → Logic J → Logic J
  stop_timer name l = elim (lookup name l.timers) [ none ↦ l | some t ↦ act (cancel_timer name) l ]

  unfoldable pub comm_sends : List CommSend → Logic J → Logic J
  comm_sends [] l = l
  comm_sends (s ∷ rest) l =
      comm_sends rest
        (if has_port s.comm_name l.active_ports then act (send s.comm_name s.text) l else l)

  unfoldable pub respond : Option CalibrationResult → Logic J → Logic J
  respond none l = l
  respond (some r) l = act (calibration_response r.pulses_per_page r.comm_name) l

  -- The single write of a cycle.
  unfoldable pub write_cycle : Bool → Logic J → Logic J
  write_cycle accepts l =
      if not l.override_outputs && l.outputs_updated
      then record (write_outputs accepts l) { outputs_updated = false }
      else l

  unfoldable pub end_cycle : Logic J → Logic J
  end_cycle l = record l { timers = reset_timers l.timers; inputs_updated = false }

  -- At most one update of the GUI in 50 ms.
  unfoldable pub publish : ℕ → Bool → Logic J → Logic J
  publish now wants l =
      if wants && not (too_early now l.last_barcode_emit)
      then record (act (barcode_store_updated (barcode_store_snapshot l.core)) l) {
        last_barcode_emit = some now;
      }
      else l

module _ (fresh : Fresh) where
  unfoldable pub set_output : String → ℤ → Map IoChannel → Map IoChannel
  set_output name state m =
      insert name (record (value_or (lookup name m) fresh.channel) { state = state }) m

  unfoldable pub set_outputs : List (String × ℤ) → Map IoChannel → Map IoChannel
  set_outputs [] m = m
  set_outputs ((name, state) ∷ rest) m = set_outputs rest (set_output name state m)

  module _ {J : Type 0} where
    unfoldable pub apply_outputs : List (String × ℤ) → Logic J → Logic J
    apply_outputs [] l = l
    apply_outputs (change ∷ rest) l = record l {
      output_channels = set_outputs (change ∷ rest) l.output_channels;
      outputs_updated = true;
    }

    unfoldable pub timer_cmd : TimerCmd → Logic J → Logic J
    timer_cmd (start name) l = start_timer name l
    timer_cmd (start_with name ms) l = start_timer name (record l {
      timers =
          insert name (record (value_or (lookup name l.timers) fresh.timer) { duration = ms })
            l.timers;
    })
    timer_cmd (stop name) l = stop_timer name l

    unfoldable pub timer_cmds : List TimerCmd → Logic J → Logic J
    timer_cmds [] l = l
    timer_cmds (cmd ∷ rest) l = timer_cmds rest (timer_cmd cmd l)

module _ (JS : JsonValue) (fresh : Fresh) where
  open JS use {Value, contains, is_string, equals}

  unfoldable pub is_result : Option Value → Bool
  is_result none = false
  is_result (some v) =
      contains v "type" && is_string v "type" && equals v "type" "calibration_result"

  unfoldable pub message_arrived : Option (CommCellMessage Value) → Bool
  message_arrived none = false
  message_arrived (some m) = not (is_result m.parsed)

  unfoldable pub cycle_inputs : Logic Value → CycleInputs Value
  cycle_inputs l = record {
    inputs = l.input_channels;
    timer_edges = timer_edges l.timers;
    outputs_snapshot = l.output_channels;
    timers_snapshot = timers_snapshot l.timers;
    new_comm_msg = l.pending_comm_msg;
    blink_led0 = l.blink_led0;
  }

  -- What follows once the core has answered.
  unfoldable pub carry_out :
      ℕ → Bool → CycleEffects → DefaultMachineCore → Logic Value → Logic Value
  carry_out now accepts fx core l =
      let taken : Logic Value = record l { core = core; pending_comm_msg = none } in
      let outputs : Logic Value = apply_outputs fresh fx.output_changes taken in
      let sent : Logic Value = comm_sends fx.comm_sends (timer_cmds fresh fx.timer_cmds outputs) in
      publish now (message_arrived l.pending_comm_msg || fx.barcode_store_changed)
        (end_cycle (write_cycle accepts (respond fx.calibration sent)))

  -- `accepts` is the answer of the card to a write; `none` is an exception of the core, which leaves the cycle.
  unfoldable pub one_logic_cycle : ℕ → Bool → Logic Value → Option (Logic Value)
  one_logic_cycle now accepts l = elim (step JS (cycle_inputs l) l.core) [
    | threw core ↦ none
    | done fx core ↦ some (carry_out now accepts fx core l)
  ]
