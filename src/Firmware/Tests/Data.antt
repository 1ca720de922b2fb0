-- ===== src/Firmware/Tests/Data.antt =====
-- Concrete guns, rings and instances of the parameters.
use text.Mathlib.Text.{◌==◌ as str_eq}
use machine_controller.Base.{true, false, [], ◌∷◌, Bytes, some, replicate, if◌then◌else◌}
use machine_controller.Base.Int.{ℤ, pos, ltb_ℤ, ◌+ℤ◌, pos_part}
use machine_controller.Firmware.Platform.{Reals, Json}
use machine_controller.Firmware.Ring.{ActiveZone, ZoneRing}
use machine_controller.Firmware.State.{ControllerConfig, Gun, GunInput}
use machine_controller.Firmware.Encoder.{Encoder}
use machine_controller.Firmware.Controller.{Controller, Clock}
use machine_controller.Firmware.Loop.{LoopInput}

abbrev pub zone : ActiveZone
zone = record { from = pos 100; to = pos 200; next = pos 100; space = pos 30 }

-- A ring that holds one zone in slot 31.
abbrev pub ring : ZoneRing
ring = record { buf = replicate 32 zone; head = 31; tail = 0; count = 1 }

abbrev pub gun : Gun
gun = record {
  enabled = true;
  rows = record { from = pos 10; to = pos 20; space = pos 5 } ∷ [];
  zones = ring;
  gun_state = false;
  line_active = false;
  line_in_hold = false;
  line_phase_ms = 0;
  line_pwm_on = false;
  test_requested = false;
  test_dot_active = false;
  test_next_dot_ms = 0;
  pin = false;
}

-- A current within the deadband, and a low one.
abbrev pub quiet : GunInput
quiet = record {
  phys_scan = false;
  phys_run = false;
  adc_first = 2047;
  adc_second = 2047;
  ms_first = 40;
  ms_second = 40;
}

abbrev pub held : GunInput
held = record quiet { phys_scan = true; phys_run = true }

-- Whole numbers in place of the `double` values.
abbrev pub integers : Reals
integers = record {
  Double = ℤ;
  ratio = λ m n. pos m;
  of_int = λ a. a;
  to_int = λ a. a;
  to_ulong = λ a. pos_part a;
  add = λ a b. a +ℤ b;
  mul = λ a b. a;
  div = λ a b. a;
  lt = λ a b. ltb_ℤ a b;
}

-- A message is its own JSON value, and every message starts a calibration.
abbrev pub calibrations : Json ℤ
calibrations = record {
  Value = Bytes;
  parse = λ b. some b;
  contains = λ v k. true;
  text = λ v k d. if str_eq k "type" then "calibrate" else d;
  flag = λ v k d. d;
  int = λ v k d. pos 297;
  number = λ v k d. d;
  array = λ v k. [];
  float = λ v k. pos 0;
  lower_case = λ s. s;
}

abbrev pub config : ControllerConfig ℤ
config = record {
  type = "dots";
  enabled = true;
  encoder_pulses_per_mm = pos 10;
  sensor_offset = pos 10;
  sensor_offset_in_pulses = pos 100;
  start_current = pos 1;
  start_duration = pos 2;
  hold_current = pos 1;
  minimum_speed = pos 0;
  dot_size = "medium";
}

abbrev pub encoder : Encoder
encoder = record { encoder_count = 4294967295; last_encoder_raw = 4294967295; position_accum = 5 }

abbrev pub controller : Controller ℤ
controller = record {
  config = config;
  guns = gun ∷ record gun { enabled = false } ∷ gun ∷ gun ∷ [];
  encoder = encoder;
  current_position = 5;
  page_length = pos 0;
  is_calibrating = false;
  last_sensor_state = true;
  input_buffer = [];
  all_firing_zones_inserted = false;
  firing_base_position = 0;
  current_threshold = pos 2800;
  line_start_adc = pos 2700;
  line_hold_adc = pos 2500;
  test_start_ms = 0;
  test_inhibit_until_idle = false;
  sp_last_us = 0;
  sp_last_pos = 0;
  speed_mm_per_sec = pos 0;
  status_led = false;
  sent = [];
}

abbrev pub clock : Clock
clock = record { ms_arm = 40; ms_check = 40; ms_dots = 40; us_speed = 40000 }

-- 95 pulses, and a calibration message.
abbrev pub iteration : LoopInput
iteration = record {
  count = 94;
  edge_count = 95;
  bytes = 0x02 ∷ 0x7B ∷ 0x03 ∷ [];
  sensor = true;
  guns = λ i. quiet;
  clock = clock;
}
