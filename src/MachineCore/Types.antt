-- ===== src/MachineCore/Types.antt =====
-- What the machine core is given in a cycle and what it answers: IOChannel.h and MachineCore.h.
use machine_controller.Base.{Bool, List, Option, String, Bytes}
use machine_controller.Base.Int.{ℤ}
use machine_controller.Base.Maps.{Map}

pub data IoEventType : Type 0 where
  none_edge rising falling : IoEventType

pub data IoType : Type 0 where
  input output : IoType

pub record IoChannel : Type 0 where
  pub pin : ℤ
  pub io_port : String
  pub name : String
  pub description : String
  pub type : IoType
  pub state : ℤ
  pub event_type : IoEventType

pub record TimerEdge : Type 0 where
  pub rising : Bool
  pub falling : Bool

pub record TimerSnapshot : Type 0 where
  pub duration_ms : ℤ
  pub state : ℤ
  pub event_type : IoEventType

-- The JSON library: `contains`, a comparison of a member with a text, and `get<int>` of a member,
-- where `none` is the exception that it throws on a value of another type. `is_string` tells if a
-- member is a text.
pub record JsonValue : Type 1 where
  pub Value : Type 0
  pub parse : Bytes → Option Value
  pub contains : Value → String → Bool
  pub is_string : Value → String → Bool
  pub equals : Value → String → String → Bool
  pub get_int : Value → String → Option ℤ

-- `J` is the type of the parsed values.
pub record CommCellMessage (J : Type 0) : Type 0 where
  pub comm_name : String
  pub offset : ℤ
  pub raw : Bytes
  pub parsed : Option J

pub record CycleInputs (J : Type 0) : Type 0 where
  pub inputs : Map IoChannel
  pub timer_edges : Map TimerEdge
  pub outputs_snapshot : Map IoChannel
  pub timers_snapshot : Map TimerSnapshot
  pub new_comm_msg : Option (CommCellMessage J)
  pub blink_led0 : Bool

-- A duration is given by `start_with`; `start` keeps the timer's own.
pub data TimerCmd : Type 0 where
  start : String → TimerCmd
  start_with : String → ℤ → TimerCmd
  stop : String → TimerCmd

pub record CommSend : Type 0 where
  pub comm_name : String
  pub text : Bytes

pub record CalibrationResult : Type 0 where
  pub pulses_per_page : ℤ
  pub comm_name : String

pub record CycleEffects : Type 0 where
  pub output_changes : List (String × ℤ)
  pub timer_cmds : List TimerCmd
  pub comm_sends : List CommSend
  pub barcode_store_changed : Bool
  pub calibration : Option CalibrationResult
