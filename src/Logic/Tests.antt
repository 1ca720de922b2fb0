-- ===== src/Logic/Tests.antt =====
-- The theorems on the logic thread at concrete inputs.
use machine_controller.Base.{
  ◌≡◌, refl, inl, inr, true, false, List, [], ◌∷◌, Bytes, none, some, arith,
}
use machine_controller.Base.Int.{pos}
use machine_controller.MachineCore.Types.{output, none_edge, JsonValue}
use machine_controller.MachineCore.State.{DefaultMachineCore, test_master_in_file}
use machine_controller.Logic.State.{Logic, Fresh, inputs_changed}
use machine_controller.Logic.Start.{StartSettings, configured_core, with_cells, new_logic, run}
use machine_controller.Logic.Started.{run-EventSound}
use machine_controller.Logic.Cycle.{one_logic_cycle}
use machine_controller.Logic.Setup.{given}
use machine_controller.Logic.References.{FileCheck, refresh_references, refresh-passes}
use machine_controller.Logic.Events.{
  Event, gui_event, timer_event, comm_event, termination, Surroundings, parameter_change,
}
use machine_controller.Logic.Invariant.{IsSound, CycleSound, EventSound, one_logic_cycle-CycleSound}
use machine_controller.Logic.EventLoop.{parameter_change-ignored}

-- Every text parses to itself, and no member exists.
abbrev plain_texts : JsonValue
plain_texts = record {
  Value = Bytes;
  parse = λ b. some b;
  contains = λ v k. false;
  is_string = λ v k. false;
  equals = λ v k t. false;
  get_int = λ v k. none;
}

abbrev fresh : Fresh
fresh = record {
  timer = record { state = pos 0; event_type = none_edge; name = ""; duration = pos 0 };
  channel = record {
    pin = pos 0;
    io_port = "";
    name = "";
    description = "";
    type = output;
    state = pos 0;
    event_type = none_edge;
  };
}

abbrev blinking_core : DefaultMachineCore
blinking_core = record {
  blink_led0 = true;
  last_led_state = false;
  store = ("communication1", [] ∷ [] ∷ [] ∷ []) ∷ [];
  capacity = 3;
  last_seq_number = none;
  master_start_index = pos 0;
  master_length = pos 1;
  sequence_direction = "Descending";
  master_sequence_enabled = false;
  match_test_enabled = false;
  match_master_start_index = pos 0;
  match_reader_start_index = pos 0;
  match_length = pos 1;
  last_match_master = none;
  last_match_reader = none;
  master_in_file_enabled = false;
  master_in_file_start_index = pos 0;
  master_in_file_length = pos 1;
  master_file_set = [];
}

abbrev logic : Logic Bytes
logic = record {
  input_channels = [];
  output_channels = ("o0", fresh.channel) ∷ [];
  timers = ("timer1", record fresh.timer { name = "timer1"; duration = pos 500 }) ∷ [];
  active_ports = "communication1" ∷ [];
  inputs_updated = false;
  outputs_updated = false;
  pending_comm_msg = none;
  comms_initialized = true;
  timers_initialized = true;
  initializing_comms = false;
  blink_led0 = true;
  override_outputs = false;
  core = blinking_core;
  last_barcode_emit = none;
  actions = [];
  card_outputs = ("o0", fresh.channel) ∷ [];
  refused = false;
}

abbrev file_check : FileCheck
file_check = record {
  enabled = true;
  start_index = pos 1;
  len = pos 2;
  has_path = true;
  file = some ((120 ∷ 52 ∷ 50 ∷ []) ∷ (121 ∷ 53 ∷ []) ∷ []);
}

abbrev around : Surroundings
around = record {
  comm_settings = ("communication1", record { active = given false; offset = given (pos 1) }) ∷ [];
  timer_settings = ("timer1", given (pos 500)) ∷ [];
  file_check = some file_check;
  opens = λ name. true;
  now = 1000;
  accepts = true;
}

logic-IsSound : IsSound logic
logic-IsSound = record { card_outputs = λ e ok. refl; sized = (refl, tt) }

-- The timer rings, a message comes, and the GUI sets an output.
abbrev events : List (Event × Surroundings)
events =
    (timer_event "timer1", around)
    ∷ (comm_event "communication1" (65 ∷ []), around)
    ∷ (
      gui_event (record { keyword = "SetOutput"; target = "o1"; text = []; int_value = pos 1 }),
      around,
    )
    ∷ (termination, around)
    ∷ []

one_logic_cycle-CycleSound_example :
    CycleSound plain_texts fresh (one_logic_cycle plain_texts fresh 1000 true logic)
one_logic_cycle-CycleSound_example =
    one_logic_cycle-CycleSound plain_texts fresh 1000 true logic logic-IsSound

-- The new settings no longer have the port active.
parameter_change-ignored_example : parameter_change "communication" around logic ≡ logic
parameter_change-ignored_example =
    parameter_change-ignored "communication" around logic refl refl refl refl

refresh-passes_example :
    test_master_in_file (121 ∷ 53 ∷ []) (refresh_references (some file_check) blinking_core) ≡ true
refresh-passes_example =
    refresh-passes file_check ((120 ∷ 52 ∷ 50 ∷ []) ∷ (121 ∷ 53 ∷ []) ∷ []) (121 ∷ 53 ∷ [])
      blinking_core refl refl refl (inr (inl refl)) (omega arith) (omega arith)

-- A card with one output, ten cells for each port, and the check in the file.
abbrev start_settings : StartSettings
start_settings = record {
  cells = some (pos 10);
  sequence =
      some (record { enabled = true; start_index = pos 0; len = pos 4; direction = "Ascending" });
  matching =
      some (record { enabled = false; master_start = pos 0; reader_start = pos 0; len = pos 1 });
  in_file = some (record { enabled = true; start_index = pos 0; len = pos 4 });
  file_check = some file_check;
}

abbrev started : Logic Bytes
started = record {
  input_channels = [];
  output_channels = [];
  timers = [];
  active_ports = [];
  inputs_updated = false;
  outputs_updated = false;
  pending_comm_msg = none;
  comms_initialized = false;
  timers_initialized = false;
  initializing_comms = false;
  blink_led0 = false;
  override_outputs = false;
  core = configured_core start_settings (pos 10);
  last_barcode_emit = none;
  actions = inputs_changed [] ∷ [];
  card_outputs = [];
  refused = false;
}

new_logic-started : new_logic start_settings true [] ≡ some started
unfolding new_logic with_cells
new_logic-started = refl

run-EventSound_example :
    EventSound plain_texts fresh
      (run plain_texts fresh around (("o0", fresh.channel) ∷ []) events started)
run-EventSound_example =
    run-EventSound plain_texts fresh start_settings true [] (("o0", fresh.channel) ∷ []) around
      events started new_logic-started
