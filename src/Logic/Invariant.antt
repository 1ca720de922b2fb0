-- ===== src/Logic/Invariant.antt =====
-- What every cycle and every event keeps: the outputs that are not marked as changed are those of the
-- card, if it did not refuse them, and the core's store keeps its shape.
use machine_controller.Base.{
  ℕ, Bool, false, not, ◌&&◌, ◌≡◌, List, [], ◌∷◌, String, Option, none, some, arith, if◌then◌else◌,
  if_cases,
}
use machine_controller.Base.Int.{ℤ, pos, leb_ℤ}
use machine_controller.Base.Maps.{lookup}
use machine_controller.MachineCore.Types.{
  JsonValue, TimerCmd, start, start_with, stop, CommSend, CalibrationResult, CycleEffects,
}
use machine_controller.MachineCore.State.{DefaultMachineCore}
use machine_controller.MachineCore.Step.{Outcome, done, threw, step}
use machine_controller.MachineCore.Invariant.{IsSized, OutcomeSized, step-IsSized}
use machine_controller.Logic.State.{
  Timer, Action, start_timer_for, cancel_timer, Logic, Fresh, act, write_outputs,
}
use machine_controller.Logic.Cycle.{
  too_early, start_timer, stop_timer, comm_sends, respond, write_cycle, end_cycle, publish,
  apply_outputs, timer_cmd, timer_cmds, has_port, carry_out, one_logic_cycle, cycle_inputs,
}

pub record IsSound {J : Type 0} (l : Logic J) : Type 0 where
  pub card_outputs :
      l.outputs_updated ≡ false → l.refused ≡ false → l.card_outputs ≡ l.output_channels
  pub sized : IsSized l.core

-- After a cycle that may write, nothing is left to be written that the card did not refuse.
abbrev pub IsFlushed : {J : Type 0} → Logic J → Type 0
IsFlushed l = l.override_outputs ≡ false → l.refused ≡ false → l.card_outputs ≡ l.output_channels

module _ {J : Type 0} where
  pub act-IsSound : (a : Action) (l : Logic J) → IsSound l → IsSound (act a l)
  unfolding act
  act-IsSound a l s = record { card_outputs = s.card_outputs; sized = s.sized }

  start_timer-IsSound : (name : String) (l : Logic J) → IsSound l → IsSound (start_timer name l)
  unfolding start_timer
  start_timer-IsSound name l s = found (lookup name l.timers)
    where
      found :
          (o : Option Timer)
          → IsSound (elim o [
            | none ↦ l
            | some t ↦
                if leb_ℤ t.duration (pos 0) then l else act (start_timer_for name t.duration) l
          ])
      found none = s
      found (some t) =
          if_cases IsSound (leb_ℤ t.duration (pos 0)) (λ _. s)
            (λ _. act-IsSound (start_timer_for name t.duration) l s)

  stop_timer-IsSound : (name : String) (l : Logic J) → IsSound l → IsSound (stop_timer name l)
  unfolding stop_timer
  stop_timer-IsSound name l s = found (lookup name l.timers)
    where
      found :
          (o : Option Timer) → IsSound (elim o [ none ↦ l | some t ↦ act (cancel_timer name) l ])
      found none = s
      found (some t) = act-IsSound (cancel_timer name) l s

  comm_sends-IsSound : (ss : List CommSend) (l : Logic J) → IsSound l → IsSound (comm_sends ss l)
  unfolding comm_sends
  comm_sends-IsSound [] l s = s
  comm_sends-IsSound (m ∷ ms) l s =
      comm_sends-IsSound ms _
        (if_cases IsSound (has_port m.comm_name l.active_ports) (λ _. act-IsSound _ l s) (λ _. s))

  respond-IsSound : (r : Option CalibrationResult) (l : Logic J) → IsSound l → IsSound (respond r l)
  unfolding respond
  respond-IsSound none l s = s
  respond-IsSound (some r) l s = act-IsSound _ l s

  write_cycle-IsSound : (accepts : Bool) (l : Logic J) → IsSound l → IsSound (write_cycle accepts l)
  unfolding write_cycle write_outputs
  write_cycle-IsSound accepts l s =
      if_cases IsSound (not l.override_outputs && l.outputs_updated)
        (λ _. record { card_outputs = λ _ ok. ground (arith, ok); sized = s.sized }) (λ _. s)

  write_cycle-IsFlushed :
      (accepts : Bool) (l : Logic J) → IsSound l → IsFlushed (write_cycle accepts l)
  unfolding write_cycle write_outputs
  write_cycle-IsFlushed accepts l s = ground (arith, s.card_outputs)

  publish-IsSound :
      (now : ℕ) (wants : Bool) (l : Logic J) → IsSound l → IsSound (publish now wants (end_cycle l))
  unfolding publish act end_cycle
  publish-IsSound now wants l s =
      if_cases IsSound (wants && not (too_early now l.last_barcode_emit))
        (λ _. record { card_outputs = s.card_outputs; sized = s.sized })
        (λ _. record { card_outputs = s.card_outputs; sized = s.sized })

  publish-IsFlushed :
      (now : ℕ) (wants : Bool) (l : Logic J)
      → IsFlushed l
      → IsFlushed (publish now wants (end_cycle l))
  unfolding publish act end_cycle
  publish-IsFlushed now wants l f =
      if_cases IsFlushed (wants && not (too_early now l.last_barcode_emit)) (λ _. f) (λ _. f)

  module _ (fresh : Fresh) where
    apply_outputs-IsSound :
        (cs : List (String × ℤ)) (l : Logic J) → IsSound l → IsSound (apply_outputs fresh cs l)
    unfolding apply_outputs
    apply_outputs-IsSound [] l s = s
    apply_outputs-IsSound (c ∷ cs) l s = record {
      card_outputs = λ e. ground arith;
      sized = s.sized;
    }

    timer_cmd-IsSound : (c : TimerCmd) (l : Logic J) → IsSound l → IsSound (timer_cmd fresh c l)
    unfolding timer_cmd
    timer_cmd-IsSound (start name) l s = start_timer-IsSound name l s
    timer_cmd-IsSound (start_with name ms) l s =
        start_timer-IsSound name _ (record { card_outputs = s.card_outputs; sized = s.sized })
    timer_cmd-IsSound (stop name) l s = stop_timer-IsSound name l s

    timer_cmds-IsSound :
        (cs : List TimerCmd) (l : Logic J) → IsSound l → IsSound (timer_cmds fresh cs l)
    unfolding timer_cmds
    timer_cmds-IsSound [] l s = s
    timer_cmds-IsSound (c ∷ cs) l s = timer_cmds-IsSound cs _ (timer_cmd-IsSound c l s)

module _ (JS : JsonValue) (fresh : Fresh) where
  open JS use {Value}

  -- The state before the write of a cycle.
  abbrev before_write : CycleEffects → DefaultMachineCore → Logic Value → Logic Value
  before_write fx core l = respond fx.calibration (
      comm_sends fx.comm_sends (
        timer_cmds fresh fx.timer_cmds (
          apply_outputs fresh fx.output_changes
            (record l { core = core; pending_comm_msg = none }))))

  before_write-IsSound :
      (fx : CycleEffects) (core : DefaultMachineCore) (l : Logic Value)
      → IsSized core
      → IsSound l
      → IsSound (before_write fx core l)
  before_write-IsSound fx core l z s = respond-IsSound fx.calibration _ (
      comm_sends-IsSound fx.comm_sends _ (
        timer_cmds-IsSound fresh fx.timer_cmds _ (
          apply_outputs-IsSound fresh fx.output_changes _
            (record { card_outputs = s.card_outputs; sized = z }))))

  -- What is left of a cycle: nothing if an exception left it.
  abbrev pub CycleSound : Option (Logic Value) → Type 0
  CycleSound none = Unit {0}
  CycleSound (some l) = IsSound l × IsFlushed l

  abbrev pub EventSound : Option (Logic Value) → Type 0
  EventSound none = Unit {0}
  EventSound (some l) = IsSound l

  -- A cycle that no exception leaves keeps every port's vector at `capacity` cells, and keeps that the
  -- output channels are those of the card unless they are marked as changed or the card refused the last
  -- write. Without the override of the GUI, and unless the card refused the last write, all output channels
  -- are those of the card when it ends.
  pub one_logic_cycle-CycleSound :
      (now : ℕ) (accepts : Bool) (l : Logic Value)
      → IsSound l
      → CycleSound (one_logic_cycle JS fresh now accepts l)
  unfolding one_logic_cycle carry_out
  one_logic_cycle-CycleSound now accepts l s =
      found (step JS (cycle_inputs JS fresh l) l.core)
        (step-IsSized JS (cycle_inputs JS fresh l) l.core s.sized)
    where
      found :
          (o : Outcome)
          → OutcomeSized o
          → CycleSound (elim o [
            | threw core ↦ none
            | done fx core ↦ some (carry_out JS fresh now accepts fx core l)
          ])
      found (threw core) z = tt
      found (done fx core) z =
          let b = before_write-IsSound fx core l z s in
          (
            publish-IsSound now _ _ (write_cycle-IsSound accepts _ b),
            publish-IsFlushed now _ _ (write_cycle-IsFlushed accepts _ b),
          )
