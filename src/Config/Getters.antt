-- ===== src/Config/Getters.antt =====
-- The getters of single values. A result `none` is an exception.
use machine_controller.Base.{◌&&◌, Bool, true, false, String, Option, some, if◌then◌else◌}
use machine_controller.Base.Int.{ℤ, pos, ltb_ℤ, ◌+ℤ◌}
use machine_controller.Base.Options.{◌>>=◌}
use machine_controller.Config.Tree.{JsonTree}

pub record DataFileSettings : Type 0 where
  pub start_position : ℤ
  pub end_position : ℤ
  pub sequence_check : Bool
  pub existence_check : Bool
  pub sequence_direction : String

-- `get_int` is `get<int>()`, `is_object` and `is_string` the tests of a value's type.
module _ (T : JsonTree) (get_int : T.Value → Option ℤ) (is_object is_string : T.Value → Bool) where
  open T use {Value, object, value, value_int, contains, at, get_text}

  unfoldable pub get_number_of_machine_cells : Value → Option ℤ
  get_number_of_machine_cells config = do
    machine ← value config "machine" object
    value_int machine "numberOfMachinecells" (pos 20)

  unfoldable pub get_barcode_channels_to_show : Value → Option ℤ
  get_barcode_channels_to_show config = do
    machine ← value config "machine" object
    value_int machine "barcodeChannelsToShow" (pos 2)

  -- A timer that is missing, is no object, or has no duration, has 1000 ms.
  unfoldable pub duration_of : Value → Option ℤ
  duration_of timer =
      if is_object timer && contains timer "duration"
      then (do v ← at timer "duration"; get_int v)
      else some (pos 1000)

  abbrev pub timer_duration : Bool → Option Value → Option ℤ
  timer_duration false timer = some (pos 1000)
  timer_duration true timer = timer >>= duration_of

  unfoldable pub get_timer_duration : String → Value → Option ℤ
  get_timer_duration name config = do
    timers ← value config "timers" object
    timer_duration (contains timers name) (at timers name)

  unfoldable pub direction_of : Value → Option String
  direction_of tests =
      if contains tests "sequenceDirection"
      then (do v ← at tests "sequenceDirection"; if is_string v then get_text v else some "Forward")
      else some "Forward"

  -- The end 0 stands for the end of the line.
  unfoldable pub get_data_file_settings : Value → Option DataFileSettings
  get_data_file_settings config = do
    tests ← value config "tests" object
    start_index ← value_int tests "fileStartIndex" (pos 0)
    len ← value_int tests "fileLength" (pos 0)
    direction ← direction_of tests
    some (record {
      start_position = start_index;
      end_position = if ltb_ℤ (pos 0) len then start_index +ℤ len else pos 0;
      sequence_check = false;
      existence_check = false;
      sequence_direction = direction;
    })
