-- ===== src/Firmware/Loop.antt =====
-- `checkSensor`, `calculateFiringZones` and the body of `loop`.
pub mod Invariant
use machine_controller.Base.{
  ℕ, Bool, true, false, not, ◌&&◌, ◌||◌, List, [], ◌∷◌, Bytes, if◌then◌else◌,
}
use machine_controller.Firmware.Platform.{Reals, Json}
use machine_controller.Firmware.Encoder.{Encoder, sample}
use machine_controller.Firmware.State.{GlueRow, Gun, GunInput}
use machine_controller.Firmware.Zones.{zones_of_guns}
use machine_controller.Firmware.Controller.{Controller, Clock, update_guns}
use machine_controller.Firmware.Messages.{calibration_edge, process_serial}

-- What one iteration of `loop` sees: the pulses counted, at its start and at an edge of the sensor, the
-- bytes received, the sensor (`false` is LOW), and what the pass over the guns reads.
pub record LoopInput : Type 0 where
  pub count : ℕ
  pub edge_count : ℕ
  pub bytes : Bytes
  pub sensor : Bool
  pub guns : ℕ → GunInput
  pub clock : Clock

unfoldable pub differs : Bool → Bool → Bool
differs true b = not b
differs false b = b

-- Is a dot in flight?
unfoldable pub any_firing : List Gun → Bool
any_firing [] = false
any_firing (g ∷ gs) = g.gun_state || any_firing gs

unfoldable pub calculate_firing_zones : {D : Type 0} → Controller D → Controller D
calculate_firing_zones c = record c {
  guns = zones_of_guns c.firing_base_position c.guns;
  all_firing_zones_inserted = true;
}

unfoldable pub insert_zones : {D : Type 0} → Controller D → Controller D
insert_zones c =
    if c.all_firing_zones_inserted || any_firing c.guns then c else calculate_firing_zones c

unfoldable pub read_encoder : {D : Type 0} → ℕ → Controller D → Controller D
read_encoder count c =
    let e : Encoder = sample (record (c.encoder) { encoder_count = count }) in
    record c { encoder = e; current_position = e.position_accum }

module _ (R : Reals) (J : Json R.Double) (sort : List GlueRow → List GlueRow) where
  open R use {Double}

  unfoldable pub sensor_edge : ℕ → Bool → Controller Double → Controller Double
  sensor_edge count st c =
      if c.is_calibrating
      then calibration_edge R J sort count st c
      else if c.config.enabled && not st
      then record c { firing_base_position = c.current_position; all_firing_zones_inserted = false }
      else c

  unfoldable pub check_sensor : ℕ → Bool → Controller Double → Controller Double
  check_sensor count st c =
      if differs st c.last_sensor_state
      then record (sensor_edge count st c) { last_sensor_state = st }
      else c

  unfoldable pub loop : LoopInput → Controller Double → Controller Double
  loop inp c = insert_zones (
      update_guns R inp.guns inp.clock (
        check_sensor inp.edge_count inp.sensor
          (process_serial R J sort inp.bytes (read_encoder inp.count c))))

  unfoldable pub loops : List LoopInput → Controller Double → Controller Double
  loops [] c = c
  loops (i ∷ is) c = loops is (loop i c)
