-- ===== src/MachineCore/State.antt =====
-- The state of `DefaultMachineCore`, its settings and its three checks.
use machine_controller.Base.{
  ℕ, ◌+◌, Bool, true, false, List, [], ◌∷◌, Bytes, String, Option, none, some, ◌==◌, length,
  if◌then◌else◌, ◌&&◌,
}
use machine_controller.Base.Int.{ℤ, pos, ltb_ℤ}
use machine_controller.Base.Maps.{Map}
use machine_controller.MachineCore.Extract.{extract_slice_at, extract_number_at}
use text.Mathlib.Text.{◌==◌ as str_eq}

pub record DefaultMachineCore : Type 0 where
  pub blink_led0 : Bool
  pub last_led_state : Bool
  pub store : Map (List Bytes)
  pub capacity : ℕ
  pub last_seq_number : Option ℕ
  pub master_start_index : ℤ
  pub master_length : ℤ
  pub sequence_direction : String
  pub master_sequence_enabled : Bool
  pub match_test_enabled : Bool
  pub match_master_start_index : ℤ
  pub match_reader_start_index : ℤ
  pub match_length : ℤ
  pub last_match_master : Option ℕ
  pub last_match_reader : Option ℕ
  pub master_in_file_enabled : Bool
  pub master_in_file_start_index : ℤ
  pub master_in_file_length : ℤ
  pub master_file_set : List Bytes

abbrev pub at_least : ℤ → ℤ → ℤ
at_least low n = if ltb_ℤ n low then low else n

unfoldable pub set_blink_led : Bool → DefaultMachineCore → DefaultMachineCore
set_blink_led v c = record c { blink_led0 = v }

unfoldable pub set_master_sequence_enabled : Bool → DefaultMachineCore → DefaultMachineCore
set_master_sequence_enabled v c = record c { master_sequence_enabled = v }

unfoldable pub set_master_sequence_config : ℤ → ℤ → String → DefaultMachineCore → DefaultMachineCore
set_master_sequence_config start len direction c = record c {
  master_start_index = at_least (pos 0) start;
  master_length = at_least (pos 1) len;
  sequence_direction = direction;
}

unfoldable pub reset_master_sequence : DefaultMachineCore → DefaultMachineCore
reset_master_sequence c = record c { last_seq_number = none }

unfoldable pub set_match_test_enabled : Bool → DefaultMachineCore → DefaultMachineCore
set_match_test_enabled v c = record c { match_test_enabled = v }

unfoldable pub set_match_test_config : ℤ → ℤ → ℤ → DefaultMachineCore → DefaultMachineCore
set_match_test_config master reader len c = record c {
  match_master_start_index = at_least (pos 0) master;
  match_reader_start_index = at_least (pos 0) reader;
  match_length = at_least (pos 1) len;
}

unfoldable pub reset_match_test : DefaultMachineCore → DefaultMachineCore
reset_match_test c = record c { last_match_master = none; last_match_reader = none }

unfoldable pub set_master_in_file_check_enabled : Bool → DefaultMachineCore → DefaultMachineCore
set_master_in_file_check_enabled v c = record c { master_in_file_enabled = v }

unfoldable pub set_master_in_file_extraction : ℤ → ℤ → DefaultMachineCore → DefaultMachineCore
set_master_in_file_extraction start len c = record c {
  master_in_file_start_index = at_least (pos 0) start;
  master_in_file_length = at_least (pos 1) len;
}

unfoldable pub set_master_file_reference_set : List Bytes → DefaultMachineCore → DefaultMachineCore
set_master_file_reference_set refs c = record c { master_file_set = refs }

-- Does `current` follow the last number?
unfoldable pub follows : String → Option ℕ → ℕ → Bool
follows direction none current = true
follows direction (some last) current =
    if str_eq direction "Descending" then current + 1 == last else current == last + 1

unfoldable pub check_number : Option ℕ → DefaultMachineCore → Bool × DefaultMachineCore
check_number none c = (false, c)
check_number (some current) c = (
  follows c.sequence_direction c.last_seq_number current,
  record c { last_seq_number = some current },
)

unfoldable pub check_master_sequence : Bytes → DefaultMachineCore → Bool × DefaultMachineCore
check_master_sequence text c =
    if c.master_sequence_enabled
    then check_number (extract_number_at text c.master_start_index c.master_length) c
    else (true, c)

unfoldable pub match_numbers : Option ℕ → Option ℕ → DefaultMachineCore → Bool × DefaultMachineCore
match_numbers none reader c = (false, c)
match_numbers (some master) none c = (false, c)
match_numbers (some master) (some reader) c = (
  master == reader,
  record c { last_match_master = some master; last_match_reader = some reader },
)

unfoldable pub test_match_readers : Bytes → Bytes → DefaultMachineCore → Bool × DefaultMachineCore
test_match_readers master reader c =
    if c.match_test_enabled
    then match_numbers (extract_number_at master c.match_master_start_index c.match_length)
        (extract_number_at reader c.match_reader_start_index c.match_length) c
    else (true, c)

unfoldable pub bytes_eq : Bytes → Bytes → Bool
bytes_eq [] [] = true
bytes_eq [] (d ∷ ds) = false
bytes_eq (c ∷ cs) [] = false
bytes_eq (c ∷ cs) (d ∷ ds) = (c == d) && bytes_eq cs ds

unfoldable pub has_element : Bytes → List Bytes → Bool
has_element t [] = false
has_element t (r ∷ rs) = if bytes_eq t r then true else has_element t rs

unfoldable pub is_reference : Option Bytes → List Bytes → Bool
is_reference none refs = false
is_reference (some token) refs = has_element token refs

unfoldable pub test_master_in_file : Bytes → DefaultMachineCore → Bool
test_master_in_file text c =
    if c.master_in_file_enabled
    then (if length c.master_file_set == 0
        then false
        else is_reference
            (extract_slice_at text c.master_in_file_start_index c.master_in_file_length)
            c.master_file_set)
    else true
