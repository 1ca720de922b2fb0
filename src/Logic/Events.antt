-- ===== src/Logic/Events.antt =====
-- The handlers of events and the slots of the GUI, and the event loop.
use machine_controller.Base.{
  ℕ, Bool, true, false, not, ◌||◌, List, [], ◌∷◌, String, Bytes, Option, none, some, if◌then◌else◌,
}
use machine_controller.Base.Int.{ℤ, pos}
use machine_controller.Base.Maps.{Map, lookup, insert}
use machine_controller.MachineCore.Types.{IoChannel, rising, JsonValue, CommCellMessage}
use machine_controller.MachineCore.State.{set_blink_led}
use machine_controller.Logic.State.{
  Timer, gui_message, inputs_changed, start_timer_for, cancel_timer, send, write, Logic, Fresh, act,
}
use machine_controller.Logic.Cycle.{value_or, has_port, set_output, one_logic_cycle}
use machine_controller.Logic.Setup.{
  Setting, missing, wrong_type, given, CommSetting, init_timers, close_all_ports,
  initialize_communication_ports,
}
use machine_controller.Logic.References.{FileCheck, refresh_references}
use text.Mathlib.Text.{◌==◌ as str_eq, find?}

pub record GuiEvent : Type 0 where
  pub keyword : String
  pub target : String
  pub text : Bytes
  pub int_value : ℤ

-- An event of the queue.
pub data Event : Type 0 where
  io_event : Map IoChannel → Event
  comm_event : String → Bytes → Event
  gui_event : GuiEvent → Event
  timer_event : String → Event
  termination : Event

-- What a handler reads besides its event: the configuration as it stands then, the clock in
-- milliseconds, which ports can be opened, and whether the card accepts a write.
pub record Surroundings : Type 0 where
  pub comm_settings : Map CommSetting
  pub timer_settings : Map (Setting ℤ)
  pub file_check : Option FileCheck
  pub opens : String → Bool
  pub now : ℕ
  pub accepts : Bool

-- `target.find(word) != npos`
abbrev pub mentions : String → String → Bool
mentions target word = elim (find? target word) [ none ↦ false | some i ↦ true ]

-- The offset of a port's messages; `none` is the exception of a value of another type.
unfoldable pub offset_of : Option CommSetting → Option ℤ
offset_of none = some (pos 0)
offset_of (some s) = elim s.offset [ missing ↦ some (pos 0) | wrong_type ↦ none | given n ↦ some n ]

-- The channels of the GUI replace those of the same name.
unfoldable pub merge_channels : Map IoChannel → Map IoChannel → Map IoChannel
merge_channels [] m = m
merge_channels ((name, ch) ∷ rest) m = merge_channels rest (insert name ch m)

module _ {J : Type 0} where
  unfoldable pub reinit_ports : Surroundings → Logic J → Logic J
  reinit_ports w l =
      if l.initializing_comms
      then l
      else (let (ok, l') =
            initialize_communication_ports w.opens w.comm_settings
              (record l { initializing_comms = true }) in
          record (if ok then l' else act (gui_message "error") l') { initializing_comms = false })

  unfoldable pub reinit_timers : Surroundings → Logic J → Logic J
  reinit_timers w l =
      record (init_timers w.timer_settings (record l { timers_initialized = false })).1 {
        timers_initialized = true;
      }

  unfoldable pub parameter_change : String → Surroundings → Logic J → Logic J
  parameter_change target w l0 =
      let l1 : Logic J = if mentions target "communication" then reinit_ports w l0 else l0 in
      let l2 : Logic J = if mentions target "timer" then reinit_timers w l1 else l1 in
      if str_eq target "tests" || str_eq target "datafile"
      then record l2 { core = refresh_references w.file_check l2.core }
      else l2

  unfoldable pub send_message : String → Bytes → Logic J → Logic J
  send_message port text l =
      if has_port port l.active_ports then act (send port text) l else act (gui_message "error") l

module _ (fresh : Fresh) {J : Type 0} where
  -- The timer is started with its own duration, whatever that is.
  unfoldable pub toggle_blink : Logic J → Logic J
  toggle_blink l =
      let on : Bool = not l.blink_led0 in
      let t : Timer = value_or (lookup "timer1" l.timers) fresh.timer in
      let l' : Logic J = record l {
        blink_led0 = on;
        core = set_blink_led on l.core;
        timers = insert "timer1" t l.timers;
      } in
      if on then act (start_timer_for "timer1" t.duration) l' else act (cancel_timer "timer1") l'

  -- A GUI event, and whether a cycle follows.
  unfoldable pub gui_step : GuiEvent → Surroundings → Logic J → Bool × Logic J
  gui_step e w l =
      if str_eq e.keyword "SetOutput"
      then (
        true,
        record l {
          output_channels = set_output fresh e.target e.int_value l.output_channels;
          outputs_updated = true;
        },
      )
      else if str_eq e.keyword "SetVariable"
      then (true, if str_eq e.target "blinkLed0" then toggle_blink l else l)
      else if str_eq e.keyword "ParameterChange"
      then (true, parameter_change e.target w l)
      else if str_eq e.keyword "GuiMessage"
      then (false, act (gui_message e.target) l)
      else if str_eq e.keyword "SendCommunicationMessage"
      then (false, send_message e.target e.text l)
      else (true, l)

  unfoldable pub timer_rings : String → Logic J → Logic J
  timer_rings name l = record l {
    timers =
        insert name
          (record (value_or (lookup name l.timers) fresh.timer) {
            state = pos 1;
            event_type = rising;
          })
          l.timers;
  }

module _ (JS : JsonValue) (fresh : Fresh) where
  open JS use {Value, parse}

  abbrev pub message_of : String → ℤ → Bytes → CommCellMessage Value
  message_of port offset text = record {
    comm_name = port;
    offset = offset;
    raw = text;
    parsed = parse text;
  }

  unfoldable pub handle_io : Map IoChannel → Surroundings → Logic Value → Option (Logic Value)
  handle_io channels w l =
      one_logic_cycle JS fresh w.now w.accepts (record (act (inputs_changed channels) l) {
        input_channels = channels;
        inputs_updated = true;
      })

  unfoldable pub handle_comm : String → Bytes → Surroundings → Logic Value → Option (Logic Value)
  handle_comm port text w l = elim (offset_of (lookup port w.comm_settings)) [
    | none ↦ none
    | some offset ↦
        one_logic_cycle JS fresh w.now w.accepts
          (record l { pending_comm_msg = some (message_of port offset text) })
  ]

  unfoldable pub handle_gui : GuiEvent → Surroundings → Logic Value → Option (Logic Value)
  handle_gui e w l =
      let (cycle, l') = gui_step fresh e w l in
      if cycle then one_logic_cycle JS fresh w.now w.accepts l' else some l'

  unfoldable pub handle_timer : String → Surroundings → Logic Value → Option (Logic Value)
  handle_timer name w l = one_logic_cycle JS fresh w.now w.accepts (timer_rings fresh name l)

  -- The two slots. Qt calls them on the GUI's thread, so they are no events of the queue; each stands here
  -- as it runs when the logic thread waits. `accepted` is the answer of the card.
  unfoldable pub handle_override : Bool → Logic Value → Option (Logic Value)
  handle_override on l =
      some
        (act (gui_message (if on then "warning" else "info")) (record l { override_outputs = on }))

  unfoldable pub handle_outputs :
      Map IoChannel → Bool → Surroundings → Logic Value → Option (Logic Value)
  handle_outputs outputs accepted w l =
      if l.override_outputs
      then (let merged : Logic Value = record (act (write outputs) l) {
        output_channels = merge_channels outputs l.output_channels;
        outputs_updated = true;
      } in
          one_logic_cycle JS fresh w.now w.accepts
            (if accepted then merged else act (gui_message "error") merged))
      else some l

  -- `none` is an exception that leaves the thread.
  unfoldable pub handle : Event → Surroundings → Logic Value → Option (Logic Value)
  handle (io_event channels) w l = handle_io channels w l
  handle (comm_event port text) w l = handle_comm port text w l
  handle (gui_event e) w l = handle_gui e w l
  handle (timer_event name) w l = handle_timer name w l
  handle termination w l = some (close_all_ports l)

  unfoldable pub is_termination : Event → Bool
  is_termination termination = true
  is_termination _ = false

  -- The event loop: it ends with the termination event or an exception.
  unfoldable pub run_events : List (Event × Surroundings) → Logic Value → Option (Logic Value)
  run_events [] l = some l
  run_events ((e, w) ∷ rest) l =
      let after = λ (l' : Logic Value). run_events rest l' in
      elim (handle e w l) [ none ↦ none | some l' ↦ if is_termination e then some l' else after l' ]
