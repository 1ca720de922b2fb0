-- ===== src/Firmware/Controller.antt =====
-- The state of the firmware, and `updateGuns`: test mode, lines mode and dots mode.
pub mod Guarded
use machine_controller.Base.{
  ℕ, ◌+◌, ◌-◌, Bool, true, false, not, ◌&&◌, List, String, Bytes, leb, ◌==◌, if◌then◌else◌,
}
use machine_controller.Base.Int.{ℤ, pos, ◌-ℤ◌}
use text.Mathlib.Text.{◌==◌ as str_eq}
use machine_controller.Firmware.Platform.{Reals}
use machine_controller.Firmware.Encoder.{Encoder}
use machine_controller.Firmware.State.{ControllerConfig, Gun, GunInput, set_gun, sub32, for_guns}
use machine_controller.Firmware.Dots.{dots_gun}
use machine_controller.Firmware.Lines.{LineTargets, line_gun}
use machine_controller.Firmware.TestMode.{TestState, test_arm, test_dot_gun, test_line_gun}

-- `D` is the type of the `double` values. `sent` holds the calibration results sent to the PC.
pub record Controller (D : Type 0) : Type 0 where
  pub config : ControllerConfig D
  pub guns : List Gun
  pub encoder : Encoder
  pub current_position : ℕ
  pub page_length : ℤ
  pub is_calibrating : Bool
  pub last_sensor_state : Bool
  pub input_buffer : Bytes
  pub all_firing_zones_inserted : Bool
  pub firing_base_position : ℕ
  pub current_threshold : ℤ
  pub line_start_adc : ℤ
  pub line_hold_adc : ℤ
  pub test_start_ms : ℕ
  pub test_inhibit_until_idle : Bool
  pub sp_last_us : ℕ
  pub sp_last_pos : ℕ
  pub speed_mm_per_sec : D
  pub status_led : Bool
  pub sent : List ℤ

-- The readings of the clock by a pass, in the order of the reads.
pub record Clock : Type 0 where
  pub ms_arm : ℕ
  pub ms_check : ℕ
  pub ms_dots : ℕ
  pub us_speed : ℕ

unfoldable pub shutdown_all_guns : {D : Type 0} → Controller D → Controller D
shutdown_all_guns c = record c { guns = for_guns (λ i. set_gun false) 0 c.guns }

module _ (R : Reals) where
  open R use {Double, ratio, of_int, to_ulong, div, lt}

  abbrev pub line_targets : Controller Double → LineTargets
  line_targets c = record {
    start_adc = c.line_start_adc;
    hold_adc = c.line_hold_adc;
    start_ms = to_ulong c.config.start_duration;
  }

  -- The carriage speed, taken anew every 10 ms.
  unfoldable pub update_speed : ℕ → Controller Double → Controller Double
  update_speed us c =
      if c.sp_last_us == 0
      then record c { sp_last_us = us; sp_last_pos = c.current_position }
      else (let du : ℕ = sub32 us c.sp_last_us in
          let pulses : Double = of_int (pos c.current_position -ℤ pos c.sp_last_pos) in
          let per_mm : Double =
            if lt (ratio 0 1) c.config.encoder_pulses_per_mm
            then c.config.encoder_pulses_per_mm
            else ratio 1 1 in
          if leb 10000 du
          then record c {
            speed_mm_per_sec = div (div pulses (div (of_int (pos du)) (ratio 1000000 1))) per_mm;
            sp_last_us = us;
            sp_last_pos = c.current_position;
          }
          else c)

  abbrev pub speed_too_low : Controller Double → Bool
  speed_too_low c =
      lt (ratio 0 1) c.config.minimum_speed && lt c.speed_mm_per_sec c.config.minimum_speed

  unfoldable pub test_pass : (ℕ → GunInput) → Clock → Controller Double → Controller Double
  test_pass inp clock c =
      if str_eq c.config.type "dots"
      then record c {
        guns = for_guns (λ i. test_dot_gun clock.ms_dots c.current_threshold (inp i)) 0 c.guns;
      }
      else record c { guns = for_guns (λ i. test_line_gun (line_targets c) (inp i)) 0 c.guns }

  -- The pass once the speed is known.
  unfoldable pub zone_pass : (ℕ → GunInput) → Controller Double → Controller Double
  zone_pass inp c =
      if str_eq c.config.type "lines"
      then record c {
        guns =
            for_guns (λ i. line_gun (line_targets c) (speed_too_low c) c.current_position (inp i)) 0
              c.guns;
      }
      else record c {
        guns = for_guns (λ i. dots_gun c.current_position c.current_threshold (inp i)) 0 c.guns;
      }

  unfoldable pub fire_pass : (ℕ → GunInput) → Clock → Controller Double → Controller Double
  fire_pass inp clock c =
      if c.config.enabled
      then zone_pass inp (update_speed clock.us_speed c)
      else shutdown_all_guns c

  -- The outcome of `test_arm` on the controller's globals.
  abbrev pub armed : (ℕ → GunInput) → Clock → Controller Double → Bool × TestState
  armed inp clock c = test_arm inp clock.ms_arm clock.ms_check (record {
    start_ms = c.test_start_ms;
    inhibit_until_idle = c.test_inhibit_until_idle;
    guns = c.guns;
  })

  abbrev pub with_test : TestState → Controller Double → Controller Double
  with_test t c = record c {
    test_start_ms = t.start_ms;
    test_inhibit_until_idle = t.inhibit_until_idle;
    guns = t.guns;
  }

  unfoldable pub update_guns : (ℕ → GunInput) → Clock → Controller Double → Controller Double
  update_guns inp clock c =
      if c.is_calibrating
      then c
      else (let (run, t) = armed inp clock c in
          if run then test_pass inp clock (with_test t c) else fire_pass inp clock (with_test t c))
