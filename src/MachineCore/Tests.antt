-- ===== src/MachineCore/Tests.antt =====
-- The theorems on the machine core at concrete inputs.
use machine_controller.Base.{◌≡◌, ◌↔◌, refl, true, false, List, [], ◌∷◌, Bytes, none, some}
use machine_controller.Base.Int.{pos}
use machine_controller.MachineCore.Types.{
  IoChannel, input, rising, JsonValue, CommCellMessage, CycleInputs,
}
use machine_controller.MachineCore.Extract.{
  extract_slice_at, extract_number_at, number_of, stoi, digits_of, decimal,
}
use machine_controller.MachineCore.State.{DefaultMachineCore}
use machine_controller.MachineCore.Step.{step}
use machine_controller.MachineCore.Sequence.{all_pass, run_after, all_pass-run_after}
use machine_controller.MachineCore.Invariant.{IsSized, OutcomeSized, step-IsSized}

-- Every text parses to itself, and no member exists.
abbrev texts : JsonValue
texts = record {
  Value = Bytes;
  parse = λ b. some b;
  contains = λ v k. false;
  is_string = λ v k. false;
  equals = λ v k t. false;
  get_int = λ v k. none;
}

abbrev core : DefaultMachineCore
core = record {
  blink_led0 = false;
  last_led_state = false;
  store = ("communication1", (1 ∷ []) ∷ (2 ∷ []) ∷ []) ∷ [];
  capacity = 2;
  last_seq_number = some 41;
  master_start_index = pos 1;
  master_length = pos 2;
  sequence_direction = "Ascending";
  master_sequence_enabled = true;
  match_test_enabled = false;
  match_master_start_index = pos 0;
  match_reader_start_index = pos 0;
  match_length = pos 1;
  last_match_master = none;
  last_match_reader = none;
  master_in_file_enabled = false;
  master_in_file_start_index = pos 0;
  master_in_file_length = pos 1;
  master_file_set = [];
}

abbrev message : CommCellMessage Bytes
message = record {
  comm_name = "communication2";
  offset = pos 1;
  raw = 7 ∷ [];
  parsed = some (7 ∷ []);
}

abbrev i8 : IoChannel
i8 = record {
  pin = pos 8;
  io_port = "B";
  name = "i8";
  description = "";
  type = input;
  state = pos 1;
  event_type = rising;
}

abbrev inputs : CycleInputs Bytes
inputs = record {
  inputs = ("i8", i8) ∷ [];
  timer_edges = [];
  outputs_snapshot = [];
  timers_snapshot = [];
  new_comm_msg = some message;
  blink_led0 = false;
}

core-IsSized : IsSized core
core-IsSized = (refl, tt)

step-IsSized_example : OutcomeSized (step texts inputs core)
step-IsSized_example = step-IsSized texts inputs core core-IsSized

-- "x42" and "x43"
abbrev codes : List Bytes
codes = (120 ∷ 52 ∷ 50 ∷ []) ∷ (120 ∷ 52 ∷ 51 ∷ []) ∷ []

reads_42 : extract_number_at (120 ∷ 52 ∷ 50 ∷ []) (pos 1) (pos 2) ≡ some 42
unfolding extract_number_at extract_slice_at number_of stoi digits_of decimal
reads_42 = refl

reads_43 : extract_number_at (120 ∷ 52 ∷ 51 ∷ []) (pos 1) (pos 2) ≡ some 43
unfolding extract_number_at extract_slice_at number_of stoi digits_of decimal
reads_43 = refl

all_pass-run_after_example : (all_pass codes core ≡ true) ↔ (42 ∷ 43 ∷ [] ≡ run_after 41 2)
all_pass-run_after_example =
    all_pass-run_after codes (42 ∷ 43 ∷ []) 41 core refl refl refl (reads_42, (reads_43, tt))

abbrev cells : List Bytes
cells = (1 ∷ []) ∷ (2 ∷ []) ∷ (3 ∷ []) ∷ []

abbrev cells_text : Bytes
cells_text = 120 ∷ 52 ∷ 50 ∷ []

-- Every message is a calibration result whose count is a text.
abbrev bad_counts : JsonValue
bad_counts = record texts {
  contains = λ v k. true;
  is_string = λ v k. true;
  equals = λ v k s. true;
}
