-- ===== src/Logic/Start.antt =====
-- The constructor of `Logic`, the start of `run`, and `stop`.
use machine_controller.Base.{
  Bool, true, false, List, [], ◌∷◌, String, Option, none, some, if◌then◌else◌,
}
use machine_controller.Base.Int.{ℤ, pos, pos_part, ltb_ℤ}
use machine_controller.Base.Maps.{Map}
use machine_controller.MachineCore.Types.{JsonValue, IoChannel}
use machine_controller.MachineCore.State.{
  DefaultMachineCore, set_master_sequence_enabled, set_master_sequence_config,
  reset_master_sequence, set_match_test_enabled, set_match_test_config, reset_match_test,
  set_master_in_file_check_enabled, set_master_in_file_extraction,
}
use machine_controller.MachineCore.Store.{set_store_capacity}
use machine_controller.EventQueue.{push}
use machine_controller.Logic.State.{Logic, Fresh, inputs_changed}
use machine_controller.Logic.Setup.{initialize}
use machine_controller.Logic.References.{FileCheck, refresh_references}
use machine_controller.Logic.Events.{Event, termination, Surroundings, run_events}

-- `createDefaultMachineCore`
abbrev pub new_core : DefaultMachineCore
new_core = record {
  blink_led0 = false;
  last_led_state = false;
  store = [];
  capacity = 0;
  last_seq_number = none;
  master_start_index = pos 0;
  master_length = pos 1;
  sequence_direction = "Ascending";
  master_sequence_enabled = false;
  match_test_enabled = false;
  match_master_start_index = pos 0;
  match_reader_start_index = pos 0;
  match_length = pos 1;
  last_match_master = none;
  last_match_reader = none;
  master_in_file_enabled = false;
  master_in_file_start_index = pos 0;
  master_in_file_length = pos 1;
  master_file_set = [];
}

pub record SequenceSettings : Type 0 where
  pub enabled : Bool
  pub start_index : ℤ
  pub len : ℤ
  pub direction : String

pub record MatchSettings : Type 0 where
  pub enabled : Bool
  pub master_start : ℤ
  pub reader_start : ℤ
  pub len : ℤ

pub record FileSettings : Type 0 where
  pub enabled : Bool
  pub start_index : ℤ
  pub len : ℤ

-- The settings in the three groups in which they are read, each with its default where it is missing;
-- `none` is an exception. `file_check` is what `refreshMasterFileReferenceSet` reads.
pub record StartSettings : Type 0 where
  pub cells : Option ℤ
  pub sequence : Option SequenceSettings
  pub matching : Option MatchSettings
  pub in_file : Option FileSettings
  pub file_check : Option FileCheck

unfoldable pub configure_file :
    Option FileCheck → Option FileSettings → DefaultMachineCore → DefaultMachineCore
configure_file check none c = c
configure_file check (some f) c =
    let set : DefaultMachineCore =
      set_master_in_file_extraction f.start_index
        (if ltb_ℤ (pos 0) f.len then f.len else pos 1000000)
        (set_master_in_file_check_enabled f.enabled c) in
    if f.enabled then refresh_references check set else set

-- An exception ends the configuration, and is caught.
unfoldable pub configure_matching :
    StartSettings → Option MatchSettings → DefaultMachineCore → DefaultMachineCore
configure_matching s none c = c
configure_matching s (some m) c = configure_file s.file_check s.in_file (
    reset_match_test (
      set_match_test_config m.master_start m.reader_start m.len
        (set_match_test_enabled m.enabled c)))

unfoldable pub configure_tests :
    StartSettings → Option SequenceSettings → DefaultMachineCore → DefaultMachineCore
configure_tests s none c = c
configure_tests s (some q) c = configure_matching s s.matching (
    reset_master_sequence (
      set_master_sequence_config q.start_index q.len q.direction
        (set_master_sequence_enabled q.enabled c)))

-- A negative number of cells is 0.
abbrev pub cells_at_least_0 : ℤ → ℤ
cells_at_least_0 cells = if ltb_ℤ cells (pos 0) then pos 0 else cells

unfoldable pub configured_core : StartSettings → ℤ → DefaultMachineCore
configured_core s cells =
    configure_tests s s.sequence (set_store_capacity (pos_part (cells_at_least_0 cells)) new_core)

-- `ready` is the result of the card's `initialize`, and `snapshot` its input channels; `none` is an
-- exception that leaves the constructor.
unfoldable pub with_cells :
    {J : Type 0} → StartSettings → Bool → Map IoChannel → Option ℤ → Option (Logic J)
with_cells s ready snapshot none = none
with_cells s ready snapshot (some cells) = some (record {
  input_channels = [];
  output_channels = [];
  timers = [];
  active_ports = [];
  inputs_updated = false;
  outputs_updated = false;
  pending_comm_msg = none;
  comms_initialized = false;
  timers_initialized = false;
  initializing_comms = false;
  blink_led0 = false;
  override_outputs = false;
  core = configured_core s cells;
  last_barcode_emit = none;
  actions = if ready then inputs_changed snapshot ∷ [] else [];
  card_outputs = [];
  refused = false;
})

unfoldable pub new_logic : {J : Type 0} → StartSettings → Bool → Map IoChannel → Option (Logic J)
new_logic s ready snapshot = with_cells s ready snapshot s.cells

-- What stands before the event loop of `run`: the output channels are taken from the card.
unfoldable pub start_run : {J : Type 0} → Surroundings → Map IoChannel → Logic J → Logic J
start_run w outputs l = record (initialize w.timer_settings w.opens w.comm_settings l) {
  output_channels = outputs;
  card_outputs = outputs;
  refused = false;
}

unfoldable pub run :
    (JS : JsonValue)
    → Fresh
    → Surroundings
    → Map IoChannel
    → List (Event × Surroundings)
    → Logic JS.Value
    → Option (Logic JS.Value)
run JS fresh w outputs es l = run_events JS fresh es (start_run w outputs l)

-- The flag tells if `stop` ran before; only its first call does something.
unfoldable pub stop : Bool → List Event → Bool × List Event
stop true queue = (true, queue)
stop false queue = (true, push termination queue)
