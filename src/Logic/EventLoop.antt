-- ===== src/Logic/EventLoop.antt =====
-- The invariant over the handlers and the event loop.
use machine_controller.Base.{
  ℕ, Bool, true, false, not, ◌≡◌, List, [], ◌∷◌, String, Bytes, Option, none, some, if◌then◌else◌,
  if_cases, arith,
}
use machine_controller.Base.Int.{ℤ}
use machine_controller.Base.Maps.{Map, lookup}
use machine_controller.MachineCore.Types.{JsonValue, IoChannel}
use machine_controller.MachineCore.State.{set_blink_led}
use machine_controller.Logic.State.{Logic, Fresh, act}
use machine_controller.Logic.Cycle.{one_logic_cycle}
use machine_controller.Logic.Setup.{close_all_ports, initialize_communication_ports}
use machine_controller.Logic.Events.{
  GuiEvent, Event, io_event, comm_event, gui_event, timer_event, termination, Surroundings,
  offset_of, reinit_ports, mentions, parameter_change, toggle_blink, gui_step, timer_rings,
  handle_io, handle_comm, handle_gui, handle_timer, handle_override, handle_outputs, handle,
  is_termination, run_events,
}
use machine_controller.Logic.Invariant.{
  IsSound, act-IsSound, CycleSound, EventSound, one_logic_cycle-CycleSound,
}
use machine_controller.Logic.Running.{
  parameter_change-IsSound, send_message-IsSound, close_all-IsSound,
}
use text.Mathlib.Text.{◌==◌ as str_eq}

module _ (fresh : Fresh) {J : Type 0} where
  toggle_blink-IsSound : (l : Logic J) → IsSound l → IsSound (toggle_blink fresh l)
  unfolding toggle_blink act set_blink_led
  toggle_blink-IsSound l s =
      if_cases IsSound (not l.blink_led0)
        (λ _. record { card_outputs = s.card_outputs; sized = s.sized })
        (λ _. record { card_outputs = s.card_outputs; sized = s.sized })

  gui_step-IsSound :
      (e : GuiEvent) (w : Surroundings) (l : Logic J) → IsSound l → IsSound (gui_step fresh e w l).1
  unfolding gui_step
  gui_step-IsSound e w l s =
      let P = λ (x : Bool × Logic J). IsSound x.1 in
      if_cases P (str_eq e.keyword "SetOutput")
        (λ _. record { card_outputs = λ c. ground arith; sized = s.sized })
        (λ _.
          if_cases P (str_eq e.keyword "SetVariable")
            (λ _.
              if_cases IsSound (str_eq e.target "blinkLed0") (λ _. toggle_blink-IsSound l s)
                (λ _. s))
            (λ _.
              if_cases P (str_eq e.keyword "ParameterChange")
                (λ _. parameter_change-IsSound e.target w l s)
                (λ _.
                  if_cases P (str_eq e.keyword "GuiMessage") (λ _. act-IsSound _ l s)
                    (λ _.
                      if_cases P (str_eq e.keyword "SendCommunicationMessage")
                        (λ _. send_message-IsSound e.target e.text l s) (λ _. s)))))

  timer_rings-IsSound :
      (name : String) (l : Logic J) → IsSound l → IsSound (timer_rings fresh name l)
  unfolding timer_rings
  timer_rings-IsSound name l s = record { card_outputs = s.card_outputs; sized = s.sized }

module _ (JS : JsonValue) (fresh : Fresh) where
  open JS use {Value, parse}

  forget : (o : Option (Logic Value)) → CycleSound JS fresh o → EventSound JS fresh o
  forget none s = tt
  forget (some l) s = s.0

  cycle-EventSound :
      (now : ℕ) (accepts : Bool) (l : Logic Value)
      → IsSound l
      → EventSound JS fresh (one_logic_cycle JS fresh now accepts l)
  cycle-EventSound now accepts l s = forget _ (one_logic_cycle-CycleSound JS fresh now accepts l s)

  handle_comm-EventSound :
      (port : String) (text : Bytes) (w : Surroundings) (l : Logic Value)
      → IsSound l
      → EventSound JS fresh (handle_comm JS fresh port text w l)
  unfolding handle_comm
  handle_comm-EventSound port text w l s = found (offset_of (lookup port w.comm_settings))
    where
      found :
          (o : Option ℤ)
          → EventSound JS fresh (elim o [
            | none ↦ none
            | some offset ↦ one_logic_cycle JS fresh w.now w.accepts (record l {
              pending_comm_msg =
                  some
                    (record { comm_name = port; offset = offset; raw = text; parsed = parse text });
            })
          ])
      found none = tt
      found (some offset) =
          cycle-EventSound w.now w.accepts _
            (record { card_outputs = s.card_outputs; sized = s.sized })

  if-EventSound :
      (b : Bool) (x y : Option (Logic Value))
      → EventSound JS fresh x
      → EventSound JS fresh y
      → EventSound JS fresh (if b then x else y)
  if-EventSound true x y h k = h
  if-EventSound false x y h k = k

  handle_override-EventSound :
      (on : Bool) (l : Logic Value)
      → IsSound l
      → EventSound JS fresh (handle_override JS fresh on l)
  unfolding handle_override act
  handle_override-EventSound on l s = record { card_outputs = s.card_outputs; sized = s.sized }

  handle_outputs-EventSound :
      (outputs : Map IoChannel) (accepted : Bool) (w : Surroundings) (l : Logic Value)
      → IsSound l
      → EventSound JS fresh (handle_outputs JS fresh outputs accepted w l)
  unfolding handle_outputs act
  handle_outputs-EventSound outputs accepted w l s =
      if-EventSound l.override_outputs _ _
        (cycle-EventSound w.now w.accepts _ (
          if_cases IsSound accepted
            (λ _. record { card_outputs = λ c. ground arith; sized = s.sized })
            (λ _. record { card_outputs = λ c. ground arith; sized = s.sized })))
        s

  handle-EventSound :
      (e : Event) (w : Surroundings) (l : Logic Value)
      → IsSound l
      → EventSound JS fresh (handle JS fresh e w l)
  unfolding handle handle_io handle_gui handle_timer close_all_ports act
  handle-EventSound (io_event channels) w l s =
      cycle-EventSound w.now w.accepts _ (record { card_outputs = s.card_outputs; sized = s.sized })
  handle-EventSound (comm_event port text) w l s = handle_comm-EventSound port text w l s
  handle-EventSound (gui_event e) w l s =
      let g = gui_step-IsSound fresh e w l s in
      if-EventSound (gui_step fresh e w l).0 _ _ (cycle-EventSound w.now w.accepts _ g) g
  handle-EventSound (timer_event name) w l s =
      cycle-EventSound w.now w.accepts _ (timer_rings-IsSound fresh name l s)
  handle-EventSound termination w l s = close_all-IsSound l.active_ports l s

  -- Whatever events come, in whatever order and under whatever settings, if the GUI's two slots are not
  -- called meanwhile: as long as no exception ends the event loop, every port's vector keeps `capacity`
  -- cells, and output channels that are not marked as changed are those of the card unless it refused the
  -- last write, if both held at first.
  pub run_events-EventSound :
      (es : List (Event × Surroundings)) (l : Logic Value)
      → IsSound l
      → EventSound JS fresh (run_events JS fresh es l)
  unfolding run_events
  run_events-EventSound [] l s = s
  run_events-EventSound ((e, w) ∷ es) l s =
      after (handle JS fresh e w l) (handle-EventSound e w l s)
        (λ l' s'. run_events-EventSound es l' s')
    where
      after :
          (o : Option (Logic Value))
          → EventSound JS fresh o
          → ((l' : Logic Value) → IsSound l' → EventSound JS fresh (run_events JS fresh es l'))
          → EventSound JS fresh (elim o [
            | none ↦ none
            | some l' ↦ if is_termination JS fresh e then some l' else run_events JS fresh es l'
          ])
      after none h ih = tt
      after (some l') h ih = if-EventSound (is_termination JS fresh e) _ _ h (ih l' h)

-- A change of communication parameters does not reach the ports: unless the target also names timers
-- or the tests, it leaves everything as it was, whatever the new settings are.
pub parameter_change-ignored :
    {J : Type 0} (target : String) (w : Surroundings) (l : Logic J)
    → l.initializing_comms ≡ false
    → mentions target "timer" ≡ false
    → str_eq target "tests" ≡ false
    → str_eq target "datafile" ≡ false
    → parameter_change target w l ≡ l
unfolding parameter_change reinit_ports initialize_communication_ports
parameter_change-ignored target w l idle no_timer no_tests no_file = ground arith
