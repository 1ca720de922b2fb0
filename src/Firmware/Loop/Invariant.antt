-- ===== src/Firmware/Loop/Invariant.antt =====
-- What every iteration of `loop` keeps.
use machine_controller.Base.{
  ℕ, ◌≡◌, sym, ◌∙◌, not, ◌&&◌, ◌||◌, Bool, true, false, List, [], ◌∷◌, arith, if_cases, inl, inr,
  Option-cases,
}
use machine_controller.Base.Int.{ℤ}
use mathlib.Core.Path.{subst}
use text.Mathlib.Text.{◌==◌ as str_eq}
use machine_controller.Firmware.Platform.{Reals, Json}
use machine_controller.Firmware.Ring.{ActiveZone, ring_peek}
use machine_controller.Firmware.Ring.Inv.{ring_pop-IsValid, ring_poke-IsValid}
use machine_controller.Firmware.State.{GlueRow, Gun, GunInput, set_gun, All, All-for_guns_keep}
use machine_controller.Firmware.Zones.{gun_zones, zones_of_guns}
use machine_controller.Firmware.Zones.Insert.{push_rows-contents}
use machine_controller.Firmware.Dots.{
  advance_next, dots_in_zone, dots_head, dots_pending, dots_fire, dots_gun,
}
use machine_controller.Firmware.Lines.{
  LineTargets, phase_transition, bang_bang, line_in_zone, line_head, line_pending, line_gun,
}
use machine_controller.Firmware.TestMode.{
  TestState, test_clear, test_expiry, test_arm, test_dot_start, test_dot_fire, test_dot_gun,
  test_line_gun,
}
use machine_controller.Firmware.Controller.{
  Controller, Clock, shutdown_all_guns, line_targets, update_speed, test_pass, zone_pass, fire_pass,
  update_guns, armed, with_test,
}
use machine_controller.Firmware.Messages.Invariant.{
  IsOff, HasRing, IsSafe, calibration_edge-IsSafe, process_serial-IsSafe,
}
use machine_controller.Firmware.Loop.{
  LoopInput, calculate_firing_zones, insert_zones, read_encoder, sensor_edge, check_sensor, loop,
  loops, differs, any_firing,
}

module _ (position : ℕ) (s : GunInput) (g : Gun) (v : HasRing g) where
  dots_head-HasRing : (z : ActiveZone) → HasRing (dots_head position s g z)
  unfolding dots_head dots_in_zone
  dots_head-HasRing z =
      ground (arith, ring_pop-IsValid v, ring_poke-IsValid 0 (advance_next position z) v)

  dots_pending-HasRing : HasRing (dots_pending position s g)
  unfolding dots_pending
  dots_pending-HasRing = elim (Option-cases (ring_peek g.zones 0)) [
    | inl e ↦ ground arith
    | inr (z, e) ↦ ground (arith, dots_head-HasRing z)
  ]

  dots_gun-HasRing : (threshold : ℤ) → HasRing (dots_gun position threshold s g)
  unfolding dots_gun dots_fire
  dots_gun-HasRing threshold = ground (arith, dots_pending-HasRing)

module _ (t : LineTargets) (s : GunInput) (g : Gun) (v : HasRing g) where
  line_in_zone-HasRing : (slow : Bool) → HasRing (line_in_zone t slow s g)
  unfolding line_in_zone bang_bang phase_transition
  line_in_zone-HasRing slow = ground arith

  line_pending-HasRing : (slow : Bool) (position : ℕ) → HasRing (line_pending t slow position s g)
  unfolding line_pending line_head
  line_pending-HasRing slow position = elim (Option-cases (ring_peek g.zones 0)) [
    | inl e ↦ ground arith
    | inr (z, e) ↦ ground (arith, line_in_zone-HasRing slow, ring_pop-IsValid v)
  ]

  line_gun-HasRing : (slow : Bool) (position : ℕ) → HasRing (line_gun t slow position s g)
  unfolding line_gun
  line_gun-HasRing slow position = ground (arith, line_pending-HasRing slow position)

  test_line_gun-HasRing : HasRing (test_line_gun t s g)
  unfolding test_line_gun bang_bang phase_transition
  test_line_gun-HasRing = ground arith

test_dot_gun-HasRing :
    (now : ℕ) (threshold : ℤ) (s : GunInput) (g : Gun)
    → HasRing g
    → HasRing (test_dot_gun now threshold s g)
unfolding test_dot_gun test_dot_start test_dot_fire
test_dot_gun-HasRing now threshold s g v = ground arith

gun_zones-HasRing : (base : ℕ) (g : Gun) → HasRing g → HasRing (gun_zones base g)
unfolding gun_zones
gun_zones-HasRing base g v =
    if_cases HasRing g.enabled (λ _. (push_rows-contents base g.rows g.zones v).0) (λ _. v)

gun_zones-IsOff : (base : ℕ) (g : Gun) → IsOff g → IsOff (gun_zones base g)
unfolding gun_zones
gun_zones-IsOff base g v = if_cases IsOff g.enabled (λ _. v) (λ _. v)

abbrev HasRings : List Gun → Type 0
HasRings gs = All HasRing gs

test_arm-HasRings :
    (inp : ℕ → GunInput) (ms_arm ms_check : ℕ) (t : TestState)
    → HasRings t.guns
    → HasRings (test_arm inp ms_arm ms_check t).1.guns
unfolding test_arm test_expiry
test_arm-HasRings inp ms_arm ms_check t h =
    ground (arith, All-for_guns_keep HasRing (λ i g. test_clear g) 0 t.guns (λ j g v. v) h)

module _ (R : Reals) (inp : ℕ → GunInput) (clock : Clock) where
  open R use {Double}

  abbrev Rings : Controller Double → Type 0
  Rings c = HasRings c.guns

  test_pass-Rings : (c : Controller Double) → Rings c → Rings (test_pass R inp clock c)
  unfolding test_pass
  test_pass-Rings c h =
      if_cases Rings (str_eq c.config.type "dots")
        (λ _.
          All-for_guns_keep HasRing _ 0 c.guns
            (λ i g v. test_dot_gun-HasRing clock.ms_dots c.current_threshold (inp i) g v) h)
        (λ _.
          All-for_guns_keep HasRing _ 0 c.guns
            (λ i g v. test_line_gun-HasRing (line_targets R c) (inp i) g v) h)

  zone_pass-Rings : (c : Controller Double) → Rings c → Rings (zone_pass R inp c)
  unfolding zone_pass
  zone_pass-Rings c h =
      if_cases Rings (str_eq c.config.type "lines")
        (λ _.
          All-for_guns_keep HasRing _ 0 c.guns
            (λ i g v. line_gun-HasRing (line_targets R c) (inp i) g v _ c.current_position) h)
        (λ _.
          All-for_guns_keep HasRing _ 0 c.guns
            (λ i g v. dots_gun-HasRing c.current_position (inp i) g v c.current_threshold) h)

  update_speed-guns : (us : ℕ) (c : Controller Double) → (update_speed R us c).guns ≡ c.guns
  unfolding update_speed
  update_speed-guns us c = ground arith

  fire_pass-Rings : (c : Controller Double) → Rings c → Rings (fire_pass R inp clock c)
  unfolding fire_pass shutdown_all_guns
  fire_pass-Rings c h =
      if_cases Rings c.config.enabled
        (λ _.
          zone_pass-Rings (update_speed R clock.us_speed c)
            (rw (update_speed-guns clock.us_speed c) h))
        (λ _. All-for_guns_keep HasRing (λ i. set_gun false) 0 c.guns (λ i g v. v) h)

  pub update_guns-Rings : (c : Controller Double) → Rings c → Rings (update_guns R inp clock c)
  unfolding update_guns
  update_guns-Rings c h =
      let t : TestState = (armed R inp clock c).1 in
      let armed_rings : HasRings t.guns = test_arm-HasRings inp clock.ms_arm clock.ms_check _ h in
      if_cases Rings c.is_calibrating (λ _. h)
        (λ _.
          if_cases Rings (armed R inp clock c).0
            (λ _. test_pass-Rings (with_test R t c) armed_rings)
            (λ _. fire_pass-Rings (with_test R t c) armed_rings))

  update_guns-is_calibrating :
      (c : Controller Double) → (update_guns R inp clock c).is_calibrating ≡ c.is_calibrating
  unfolding update_guns test_pass fire_pass zone_pass shutdown_all_guns update_speed
  update_guns-is_calibrating c = ground arith

  update_guns-calibrating :
      (c : Controller Double) → c.is_calibrating ≡ true → update_guns R inp clock c ≡ c
  unfolding update_guns
  update_guns-calibrating c e = ground arith

  update_guns-IsSafe : (c : Controller Double) → IsSafe c → IsSafe (update_guns R inp clock c)
  update_guns-IsSafe c s = record {
    rings = update_guns-Rings c s.rings;
    off = λ e.
        let idle : c.is_calibrating ≡ true = sym (update_guns-is_calibrating c) ∙ e in
        subst (λ (d : Controller Double). All IsOff d.guns) (sym (update_guns-calibrating c idle))
          (s.off idle);
  }

insert_zones-IsSafe : {D : Type 0} (c : Controller D) → IsSafe c → IsSafe (insert_zones c)
unfolding insert_zones calculate_firing_zones zones_of_guns
insert_zones-IsSafe c s =
    if_cases IsSafe (c.all_firing_zones_inserted || any_firing c.guns) (λ _. s)
      (λ _. record {
        rings =
            All-for_guns_keep HasRing _ 0 c.guns (λ i. gun_zones-HasRing c.firing_base_position)
              s.rings;
        off = λ e.
            All-for_guns_keep IsOff _ 0 c.guns (λ i. gun_zones-IsOff c.firing_base_position)
              (s.off e);
      })

module _ (R : Reals) (J : Json R.Double) (sort : List GlueRow → List GlueRow) where
  open R use {Double}

  sensor_edge-IsSafe :
      (count : ℕ) (st : Bool) (c : Controller Double)
      → IsSafe c
      → IsSafe (sensor_edge R J sort count st c)
  unfolding sensor_edge
  sensor_edge-IsSafe count st c s =
      if_cases IsSafe c.is_calibrating (λ _. calibration_edge-IsSafe R J sort count st c s)
        (λ _.
          if_cases IsSafe (c.config.enabled && not st)
            (λ _. record { rings = s.rings; off = s.off }) (λ _. s))

  check_sensor-IsSafe :
      (count : ℕ) (st : Bool) (c : Controller Double)
      → IsSafe c
      → IsSafe (check_sensor R J sort count st c)
  unfolding check_sensor
  check_sensor-IsSafe count st c s =
      let edge : IsSafe (sensor_edge R J sort count st c) = sensor_edge-IsSafe count st c s in
      if_cases IsSafe (differs st c.last_sensor_state)
        (λ _. record { rings = edge.rings; off = edge.off }) (λ _. s)

  -- One iteration of `loop` keeps every gun's ring of zones valid, and the guns off during a
  -- calibration, whatever it reads and receives.
  pub loop-IsSafe :
      (inp : LoopInput) (c : Controller Double) → IsSafe c → IsSafe (loop R J sort inp c)
  unfolding loop read_encoder
  loop-IsSafe inp c s = insert_zones-IsSafe _ (
      update_guns-IsSafe R inp.guns inp.clock _ (
        check_sensor-IsSafe inp.edge_count inp.sensor _
          (process_serial-IsSafe R J sort inp.bytes _ (record { rings = s.rings; off = s.off }))))

  -- Over any number of iterations of `loop`, with any messages, sensor edges, currents and times,
  -- every gun's ring of zones stays valid, and whenever a calibration is under way after them every
  -- gun is off, if both held at first.
  pub loops-IsSafe :
      (is : List LoopInput) (c : Controller Double) → IsSafe c → IsSafe (loops R J sort is c)
  unfolding loops
  loops-IsSafe [] c s = s
  loops-IsSafe (i ∷ is) c s = loops-IsSafe is _ (loop-IsSafe i c s)
