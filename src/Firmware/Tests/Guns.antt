-- ===== src/Firmware/Tests/Guns.antt =====
-- The theorems on the guns at concrete inputs.
use machine_controller.Base.{
  ℕ, ◌*◌, ◌≡◌, refl, true, false, List, [], ◌∷◌, map, take, arith, if◌then◌else◌,
}
use machine_controller.Base.Int.{pos, ltb_ℤ, ◌+ℤ◌, ◌-ℤ◌, ◌≤ℤ◌, ◌<ℤ◌}
use machine_controller.Firmware.Ring.{ring_peek, ring_pop}
use machine_controller.Firmware.Ring.Inv.{IsValid}
use machine_controller.Firmware.Ring.Refine.{
  Op, push, pop, poke, contents, run, queue_run, run_refines,
}
use machine_controller.Firmware.State.{GlueRow, AllAt}
use machine_controller.Firmware.Dots.{
  advance_next, dots_in_zone, dots_head, dots_pending, dots_fire, dots_gun,
}
use machine_controller.Firmware.Dots.Safety.{Starts, Fits, dots_gun-Starts, advance_next-grid}
use machine_controller.Firmware.Lines.{
  LineTargets, phase_transition, bang_bang, line_in_zone, line_head, line_pending, line_gun,
}
use machine_controller.Firmware.Lines.Safety.{InZone, AtMost, line_gun-on}
use machine_controller.Firmware.TestMode.{TestState, test_dot_start, test_dot_fire, test_dot_gun}
use machine_controller.Firmware.TestMode.Safety.{TestPass}
use machine_controller.Firmware.Zones.{zone_of, push_rows}
use machine_controller.Firmware.Zones.Insert.{push_rows-contents, far_zone_dropped}
use machine_controller.Firmware.Controller.{update_guns}
use machine_controller.Firmware.Controller.Guarded.{IsGuarded, update_guns-IsGuarded}
use machine_controller.Firmware.Messages.Invariant.{IsSafe}
use machine_controller.Firmware.Loop.{loops}
use machine_controller.Firmware.Loop.Invariant.{loops-IsSafe}
use machine_controller.Firmware.Tests.Data.{
  zone, ring, gun, quiet, held, integers, calibrations, controller, clock, iteration,
}

ring-IsValid : IsValid ring
ring-IsValid = record {
  storage = refl;
  head_in = omega arith;
  count_in = omega arith;
  tail_at = refl;
}

controller-IsSafe : IsSafe controller
controller-IsSafe = record {
  rings = (ring-IsValid, (ring-IsValid, (ring-IsValid, (ring-IsValid, tt))));
  off = λ e. (refl, (refl, (refl, (refl, tt))));
}

loops-IsSafe_example :
    IsSafe (loops integers calibrations (λ rows. rows) (iteration ∷ iteration ∷ []) controller)
loops-IsSafe_example =
    loops-IsSafe integers calibrations (λ rows. rows) (iteration ∷ iteration ∷ []) controller
      controller-IsSafe

update_guns-IsGuarded_example :
    AllAt (IsGuarded true (λ i. quiet)) 0 (update_guns integers (λ i. quiet) clock controller).guns
update_guns-IsGuarded_example = update_guns-IsGuarded integers (λ i. quiet) clock controller refl

abbrev script : List Op
script = push (record zone { from = pos 150 }) ∷ poke zone ∷ pop ∷ pop ∷ pop ∷ []

run_refines_example : run ring script ≡ queue_run (zone ∷ []) script
run_refines_example = run_refines script ring ring-IsValid

fires : (dots_gun 120 (pos 2800) quiet gun).pin ≡ true
unfolding dots_gun dots_fire dots_pending dots_head dots_in_zone ring_peek
fires = refl

dots_gun-Starts_example : Starts 120 quiet gun
dots_gun-Starts_example = dots_gun-Starts 120 (pos 2800) quiet gun refl fires

zone-Fits : Fits zone
unfolding ◌+ℤ◌
zone-Fits = record { next_low = omega arith; end_high = omega arith; spaced = omega arith }

advance_next-grid_example :
    (k : ℕ) × (pos 165 <ℤ pos 100 +ℤ pos (k * 30))
    × (pos 100 +ℤ pos (k * 30) ≤ℤ pos 165 +ℤ pos 30)
    × ((advance_next 165 zone).next ≡ (
        if ltb_ℤ (pos 200) (pos 100 +ℤ pos (k * 30))
        then pos 200 +ℤ pos 1
        else pos 100 +ℤ pos (k * 30)))
advance_next-grid_example = advance_next-grid 165 zone zone-Fits (omega arith) (omega arith)

abbrev targets : LineTargets
targets = record { start_adc = pos 2700; hold_adc = pos 2500; start_ms = 2 }

line_on : (line_gun targets false 120 quiet gun).pin ≡ true
unfolding line_gun line_pending line_head line_in_zone bang_bang phase_transition ring_peek ◌+ℤ◌
    ◌-ℤ◌
line_on = refl

line_gun-on_example :
    (true ≡ true)
    × InZone 120 gun
    × (false ≡ false)
    × AtMost targets quiet (line_gun targets false 120 quiet gun)
line_gun-on_example = line_gun-on targets false 120 quiet gun ring-IsValid line_on

abbrev two_rows : List GlueRow
two_rows =
    record { from = pos 10; to = pos 20; space = pos 5 }
    ∷ record { from = pos 30; to = pos 40; space = pos 5 }
    ∷ []

push_rows-contents_example :
    IsValid (push_rows 1000 two_rows ring)
    × (contents (push_rows 1000 two_rows ring) ≡ take 32 (zone ∷ map (zone_of 1000) two_rows))
push_rows-contents_example = push_rows-contents 1000 two_rows ring ring-IsValid

abbrev far_row : GlueRow
far_row = record { from = pos 10; to = pos 648; space = pos 5 }

far_zone_dropped_example :
    dots_head 2147483100 quiet gun (zone_of 2147483000 far_row)
    ≡ record gun { zones = (ring_pop ring).1 }
unfolding ◌+ℤ◌
far_zone_dropped_example =
    far_zone_dropped 2147483000 2147483100 far_row quiet gun (omega arith) (omega arith)

-- A test that began 10 ms after the start of the clock.
abbrev testing : TestState
testing = record {
  start_ms = 10;
  inhibit_until_idle = false;
  guns = record gun { test_requested = true; pin = true } ∷ gun ∷ [];
}

-- The operator holds the input of a gun, which the PC asks for too.
abbrev holding : TestPass
holding = record {
  inputs = λ i. held;
  ms_arm = 30012;
  ms_check = 30013;
  guns = record gun { test_requested = true } ∷ gun ∷ [];
}

tests : (test_dot_gun 40 (pos 2800) held gun).pin ≡ true
unfolding test_dot_gun test_dot_start test_dot_fire
tests = refl
