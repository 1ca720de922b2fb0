-- ===== src/Logic/State.antt =====
-- The members of `Logic`, the timers of Timer.h, and what the thread does to the outside.
use machine_controller.Base.{
  ℕ, Bool, not, if◌then◌else◌, List, [], ◌∷◌, ◌++◌, Option, String, Bytes,
}
use machine_controller.Base.Int.{ℤ}
use machine_controller.Base.Maps.{Map}
use machine_controller.MachineCore.Types.{IoChannel, IoEventType, CommCellMessage}
use machine_controller.MachineCore.State.{DefaultMachineCore}

-- The thread of a timer is not part of its value: starting and cancelling it are actions.
pub record Timer : Type 0 where
  pub state : ℤ
  pub event_type : IoEventType
  pub name : String
  pub duration : ℤ

-- What the thread does: signals to the GUI (of a message its kind is kept), calls of timers, ports
-- and the I/O card.
pub data Action : Type 0 where
  gui_message : String → Action
  inputs_changed : Map IoChannel → Action
  calibration_response : ℤ → String → Action
  barcode_store_updated : Map (List Bytes) → Action
  start_timer_for : String → ℤ → Action
  cancel_timer : String → Action
  send : String → Bytes → Action
  open_port : String → Action
  close_port : String → Action
  write : Map IoChannel → Action

-- `J` is the type of the parsed messages. `active_ports` holds the names of the ports in
-- `activeCommPorts_`. `actions` is what was done so far. `card_outputs` holds the output channels that the
-- thread last took from the card or wrote to it, and `refused` tells if the card refused a write of them
-- since then: the source logs that and goes on.
pub record Logic (J : Type 0) : Type 0 where
  pub input_channels : Map IoChannel
  pub output_channels : Map IoChannel
  pub timers : Map Timer
  pub active_ports : List String
  pub inputs_updated : Bool
  pub outputs_updated : Bool
  pub pending_comm_msg : Option (CommCellMessage J)
  pub comms_initialized : Bool
  pub timers_initialized : Bool
  pub initializing_comms : Bool
  pub blink_led0 : Bool
  pub override_outputs : Bool
  pub core : DefaultMachineCore
  pub last_barcode_emit : Option ℕ
  pub actions : List Action
  pub card_outputs : Map IoChannel
  pub refused : Bool

-- What the language leaves open: the members of a `Timer` and of an `IOChannel` that a map makes
-- when it is asked for a key that it does not have.
pub record Fresh : Type 0 where
  pub timer : Timer
  pub channel : IoChannel

module _ {J : Type 0} where
  unfoldable pub act : Action → Logic J → Logic J
  act a l = record l { actions = l.actions ++ (a ∷ []) }

  -- `accepts` is the answer of the card.
  unfoldable pub write_outputs : Bool → Logic J → Logic J
  write_outputs accepts l = record l {
    actions = l.actions ++ (write l.output_channels ∷ []);
    card_outputs = if accepts then l.output_channels else l.card_outputs;
    refused = not accepts;
  }
