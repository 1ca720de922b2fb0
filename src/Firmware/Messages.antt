-- ===== src/Firmware/Messages.antt =====
-- The handlers of the messages from the PC, and their dispatch in `processSerial`.
pub mod Invariant
use machine_controller.Base.{
  ℕ, zero, suc, ◌+◌, ◌-◌, Bool, true, false, ◌||◌, ◌&&◌, List, [], ◌∷◌, map, String, Bytes, Option,
  none, some, ◌==◌, if◌then◌else◌,
}
use machine_controller.Base.Int.{ℤ, pos, negsuc, pos_part, ltb_ℤ, leb_ℤ, ◌+ℤ◌, narrow32}
use text.Mathlib.Text.{◌==◌ as str_eq}
use machine_controller.Firmware.Platform.{Reals, Json}
use machine_controller.Firmware.Encoder.{sample, reset}
use machine_controller.Firmware.Ring.{ring_clear}
use machine_controller.Firmware.Rows.{store_rows}
use machine_controller.Firmware.State.{GlueRow, ControllerConfig, Gun, for_guns, set_gun}
use machine_controller.Firmware.Serial.{Framer, read_bytes}
use machine_controller.Firmware.TestMode.{test_clear}
use machine_controller.Firmware.Controller.{Controller, shutdown_all_guns}

-- Applies `f` to the gun with the given index.
unfoldable pub update_at : ℕ → (Gun → Gun) → List Gun → List Gun
update_at i f [] = []
update_at zero f (g ∷ gs) = f g ∷ gs
update_at (suc i) f (g ∷ gs) = g ∷ update_at i f gs

-- The part of `handleTest` that is applied to a gun.
unfoldable pub test_apply : Bool → Gun → Gun
test_apply on g = if on then record g { test_requested = true } else test_clear g

abbrev pub clear_ring : Gun → Gun
clear_ring g = record g { zones = ring_clear g.zones }

unfoldable pub clear_rings : List Gun → List Gun
clear_rings gs = for_guns (λ i. clear_ring) 0 gs

-- The messages that the firmware tells apart; a heartbeat has no effect, like an unknown type.
pub data Kind : Type 0 where
  setup test calibrate other : Kind

unfoldable pub kind_of : String → Kind
kind_of type =
    if str_eq type "controller_setup" || str_eq type "config"
    then setup
    else if str_eq type "test"
    then test
    else if str_eq type "calibrate"
    then calibrate
    else other

-- Turning a test on starts a new period of 30 seconds.
unfoldable pub rearm : {D : Type 0} → Bool → Controller D → Controller D
rearm true c = record c { test_start_ms = 0; test_inhibit_until_idle = false }
rearm false c = c

-- `sort` is `std::sort` by `from`.
module _ (R : Reals) (J : Json R.Double) (sort : List GlueRow → List GlueRow) where
  open R use {Double, ratio, of_int, to_int, add, mul, div}
  open J use {Value, parse, contains, text, flag, int, number, array, float, lower_case}

  -- (int)((amps * 0.8 + 2.5) * ADC_MAX / 5.0)
  unfoldable pub adc_counts : Double → ℤ
  adc_counts amps =
      to_int (div (mul (add (mul amps (ratio 8 10)) (ratio 25 10)) (of_int (pos 4095))) (ratio 5 1))

  unfoldable pub dot_threshold : String → Double
  dot_threshold size =
      if str_eq size "small"
      then ratio 7 10
      else if str_eq size "medium"
      then ratio 9 10
      else if str_eq size "large"
      then ratio 11 10
      else ratio 0 1

  unfoldable pub row_of : ControllerConfig Double → Value → GlueRow
  row_of cfg j = record {
    from = to_int (mul (float j "from") cfg.encoder_pulses_per_mm) +ℤ cfg.sensor_offset_in_pulses;
    to = to_int (mul (float j "to") cfg.encoder_pulses_per_mm) +ℤ cfg.sensor_offset_in_pulses;
    space = to_int (mul (float j "space") cfg.encoder_pulses_per_mm);
  }

  unfoldable pub configure_gun : ControllerConfig Double → Value → Gun → Gun
  configure_gun cfg j g = record g {
    enabled = flag j "enabled" true;
    rows = if contains j "rows" then store_rows sort (map (row_of cfg) (array j "rows")) else [];
  }

  -- An element of the array `guns` of a message; an index out of range is skipped.
  unfoldable pub configure_one : ControllerConfig Double → Value → List Gun → List Gun
  configure_one cfg j gs =
      let gun_id : ℤ = int j "gunId" (negsuc 0) in
      if leb_ℤ (pos 0) gun_id && ltb_ℤ gun_id (pos 4)
      then update_at (pos_part gun_id) (configure_gun cfg j) gs
      else gs

  unfoldable pub configure_guns : ControllerConfig Double → List Value → List Gun → List Gun
  configure_guns cfg [] gs = gs
  configure_guns cfg (j ∷ js) gs = configure_guns cfg js (configure_one cfg j gs)

  unfoldable pub config_of : Value → ControllerConfig Double
  config_of j =
      let per_mm : Double = number j "encoder" (ratio 1 1) in
      let offset : ℤ = int j "sensorOffset" (pos 10) in
      record {
        type = text j "controllerType" "dots";
        enabled = flag j "enabled" false;
        encoder_pulses_per_mm = per_mm;
        sensor_offset = offset;
        sensor_offset_in_pulses = to_int (mul (of_int offset) per_mm);
        start_current = number j "startCurrent" (ratio 1 1);
        start_duration = of_int (int j "startDuration" (pos 500));
        hold_current = number j "holdCurrent" (ratio 5 10);
        minimum_speed = number j "minimumSpeed" (ratio 0 1);
        dot_size = text j "dotSize" "medium";
      }

  unfoldable pub handle_config : Value → Controller Double → Controller Double
  handle_config j c =
      let cfg : ControllerConfig Double = config_of j in
      record c {
        config = cfg;
        current_threshold = adc_counts (dot_threshold cfg.dot_size);
        line_start_adc = adc_counts cfg.start_current;
        line_hold_adc = adc_counts cfg.hold_current;
        status_led = cfg.enabled;
        all_firing_zones_inserted = false;
        guns =
            clear_rings
              (if contains j "guns" then configure_guns cfg (array j "guns") c.guns else c.guns);
      }

  unfoldable pub init_calibration : Value → Controller Double → Controller Double
  init_calibration j c =
      shutdown_all_guns
        (record c { page_length = int j "pageLength" (pos 1000); is_calibrating = true })

  -- Runs on an edge of the sensor during a calibration; `false` is LOW. `count` is what the counter
  -- holds then, which may be more than at the start of the iteration.
  unfoldable pub calibration_edge : ℕ → Bool → Controller Double → Controller Double
  calibration_edge count false c = record c { encoder = reset c.encoder }
  calibration_edge count true c =
      let e = sample (record (c.encoder) { encoder_count = count }) in
      record c {
        encoder = e;
        sent = narrow32 (pos e.position_accum) ∷ c.sent;
        config = record (c.config) {
          encoder_pulses_per_mm =
              div (of_int (pos e.position_accum)) (mul (of_int c.page_length) (ratio 10 1));
        };
        is_calibrating = false;
      }

  unfoldable pub test_guns : ℤ → Bool → List Gun → List Gun
  test_guns gun on gs =
      if leb_ℤ gun (pos 0)
      then for_guns (λ i. test_apply on) 0 gs
      else if leb_ℤ gun (pos 4)
      then update_at (pos_part gun - 1) (test_apply on) gs
      else gs

  unfoldable pub test_on : Value → Bool
  test_on j =
      let state : String = lower_case (text j "state" "") in
      str_eq state "on" || str_eq state "true" || str_eq state "1"

  unfoldable pub handle_test : Value → Controller Double → Controller Double
  handle_test j c =
      rearm (test_on j) (record c { guns = test_guns (int j "gun" (pos 0)) (test_on j) c.guns })

  unfoldable pub handle_kind : Kind → Value → Controller Double → Controller Double
  handle_kind setup j c = handle_config j c
  handle_kind test j c = handle_test j c
  handle_kind calibrate j c = init_calibration j c
  handle_kind other j c = c

  unfoldable pub handle_message : Value → Controller Double → Controller Double
  handle_message j c = handle_kind (kind_of (text j "type" "")) j c

  unfoldable pub handle_frames : List Bytes → Controller Double → Controller Double
  handle_frames [] c = c
  handle_frames (m ∷ ms) c =
      handle_frames ms (elim (parse m) [ none ↦ c | some j ↦ handle_message j c ])

  -- The bytes that are available; the handlers do not touch the buffer.
  unfoldable pub process_serial : Bytes → Controller Double → Controller Double
  process_serial bytes c =
      let f = read_bytes (record { input_buffer = c.input_buffer; frames = [] }) bytes in
      handle_frames f.frames (record c { input_buffer = f.input_buffer })
