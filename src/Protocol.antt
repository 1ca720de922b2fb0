-- ===== src/Protocol.antt =====
-- The messages that the program builds for the glue controllers: src/communication/ArduinoProtocol.cpp.
-- A JSON object is the map that its assignments `m[key] = value` leave; `dump`, which prints it, is a
-- parameter.
pub mod Reading
pub mod Setup
pub mod Requests
pub mod Tests
use machine_controller.Base.{
  ℕ, suc, ◌&&◌, Bool, true, false, List, [], ◌∷◌, map, String, Bytes, Option, none, some,
  if◌then◌else◌,
}
use machine_controller.Base.Int.{ℤ, pos, leb_ℤ}
use machine_controller.Base.Maps.{Map, insert}
use machine_controller.EventQueue.{push}
use machine_controller.Logic.Events.{GuiEvent, Event, gui_event}

-- The value of a key; an array has elements of type `A`.
pub data Field (D A : Type 0) : Type 0 where
  str : String → Field D A
  whole : ℤ → Field D A
  truth : Bool → Field D A
  real : D → Field D A
  items : List A → Field D A

-- The objects of a message by their depth: rows hold no array.
abbrev pub Row : Type 0 → Type 0
Row D = Map (Field D Unit)

abbrev pub GunPart : Type 0 → Type 0
GunPart D = Map (Field D (Row D))

abbrev pub Message : Type 0 → Type 0
Message D = Map (Field D (GunPart D))

-- 0 means all guns.
unfoldable pub test_gun_id : ℤ → ℤ
test_gun_id gun_index =
    if leb_ℤ (pos 1) gun_index && leb_ℤ gun_index (pos 4) then gun_index else pos 0

-- A sequence of assignments.
unfoldable pub assign : {V : Type 0} → List (String × V) → Map V → Map V
assign [] o = o
assign ((key, value) ∷ rest) o = assign rest (insert key value o)

-- `ArduinoProtocol::GlueRow`, in mm.
pub record MmRow (D : Type 0) : Type 0 where
  pub from : ℤ
  pub to : ℤ
  pub space : D

module _ {D : Type 0} where
  unfoldable pub create_config_message : D → ℤ → Message D
  create_config_message encoder_resolution sensor_offset =
      assign
        (("type", str "config")
          ∷ ("encoder", real encoder_resolution)
          ∷ ("sensorOffset", whole sensor_offset)
          ∷ [])
        []

  unfoldable pub row_object : MmRow D → Row D
  row_object row =
      assign (("from", whole row.from) ∷ ("to", whole row.to) ∷ ("space", real row.space) ∷ []) []

  unfoldable pub plan_gun : List (MmRow D) → GunPart D
  plan_gun rows = assign (("rows", items (map row_object rows)) ∷ []) []

  unfoldable pub create_plan_message : List (List (MmRow D)) → Message D
  create_plan_message guns =
      assign (("type", str "plan") ∷ ("guns", items (map plan_gun guns)) ∷ []) []

  -- The gun of the vector's index `i`.
  unfoldable pub gun_object : ℕ → Bool × List (MmRow D) → GunPart D
  gun_object i (enabled, rows) =
      assign
        (("gunId", whole (pos (suc i)))
          ∷ ("enabled", truth enabled)
          ∷ ("rows", items (map row_object rows))
          ∷ [])
        []

  unfoldable pub gun_objects : ℕ → List (Bool × List (MmRow D)) → List (GunPart D)
  gun_objects i [] = []
  gun_objects i (gun ∷ guns) = gun_object i gun ∷ gun_objects (suc i) guns

-- The arguments of `createControllerSetupMessage`.
pub record SetupValues (D : Type 0) : Type 0 where
  pub controller_type : String
  pub encoder_resolution : D
  pub sensor_offset : ℤ
  pub controller_enabled : Bool
  pub guns : List (Bool × List (MmRow D))
  pub start_current : D
  pub start_duration_ms : D
  pub hold_current : D
  pub dot_size : String

module _ {D : Type 0} where
  unfoldable pub create_controller_setup_message : SetupValues D → Message D
  create_controller_setup_message s =
      assign
        (("type", str "controller_setup")
          ∷ ("controllerType", str s.controller_type)
          ∷ ("enabled", truth s.controller_enabled)
          ∷ ("encoder", real s.encoder_resolution)
          ∷ ("sensorOffset", whole s.sensor_offset)
          ∷ ("startCurrent", real s.start_current)
          ∷ ("startDurationMS", real s.start_duration_ms)
          ∷ ("holdCurrent", real s.hold_current)
          ∷ ("dotSize", str s.dot_size)
          ∷ ("guns", items (gun_objects 0 s.guns))
          ∷ [])
        []

  unfoldable pub create_calibrate_message : ℤ → Message D
  create_calibrate_message page_length =
      assign (("type", str "calibrate") ∷ ("pageLength", whole page_length) ∷ []) []

  unfoldable pub create_heartbeat_message : Message D
  create_heartbeat_message = assign (("type", str "heartbeat") ∷ []) []

  unfoldable pub create_test_message : ℤ → Bool → Message D
  create_test_message gun_index on =
      assign
        (("type", str "test")
          ∷ ("gun", whole (test_gun_id gun_index))
          ∷ ("state", str (if on then "on" else "off"))
          ∷ [])
        []

-- `dump` throws on a text that is not UTF-8; the message is then empty.
unfoldable pub dumped : Option Bytes → Bytes
dumped none = []
dumped (some text) = text

-- An empty message is not sent.
unfoldable pub send_message : List Event → String → Bytes → List Event
send_message queue communication_name [] = queue
send_message queue communication_name (b ∷ bs) =
    push
      (gui_event (record {
        keyword = "SendCommunicationMessage";
        target = communication_name;
        text = b ∷ bs;
        int_value = pos 0;
      }))
      queue
