-- ===== src/Firmware/Lines.antt =====
-- Lines mode of `updateGuns`: one pass over a gun, and the current control that the test of the lines
-- mode shares with it.
pub mod Safety
use machine_controller.Base.{ℕ, Bool, true, false, Option, none, some, leb, ◌==◌, if◌then◌else◌}
use machine_controller.Base.Int.{ℤ, pos, ltb_ℤ, leb_ℤ, ◌+ℤ◌, ◌-ℤ◌}
use machine_controller.Firmware.Ring.{ActiveZone, ring_pop, ring_peek}
use machine_controller.Firmware.State.{Gun, GunInput, hysteresis, sub32}

-- The targets in ADC counts, and `config.startDuration` in milliseconds.
pub record LineTargets : Type 0 where
  pub start_adc : ℤ
  pub hold_adc : ℤ
  pub start_ms : ℕ

-- From the start phase to the hold phase.
unfoldable pub phase_transition : LineTargets → GunInput → Gun → Gun
phase_transition t s g =
    if g.line_in_hold
    then g
    else if leb t.start_ms (sub32 s.ms_second g.line_phase_ms)
    then record g { line_in_hold = true }
    else g

-- Keeps the current around the target of the phase.
unfoldable pub bang_bang : LineTargets → GunInput → Gun → Gun
bang_bang t s g =
    let target : ℤ = if g.line_in_hold then t.hold_adc else t.start_adc in
    if ltb_ℤ (target +ℤ pos hysteresis) (pos s.adc_first)
    then record g { line_pwm_on = false }
    else if ltb_ℤ (pos s.adc_first) (target -ℤ pos hysteresis)
    then record g { line_pwm_on = true }
    else g

abbrev pub line_off : Gun → Gun
line_off g = record g {
  pin = false;
  line_active = false;
  line_in_hold = false;
  line_pwm_on = false;
}

unfoldable pub line_in_zone : LineTargets → Bool → GunInput → Gun → Gun
line_in_zone t speed_too_low s g =
    let started : Gun =
      if g.line_active
      then g
      else record g { line_active = true; line_in_hold = false; line_phase_ms = s.ms_first } in
    let controlled : Gun = bang_bang t s (phase_transition t s started) in
    record controlled { pin = if speed_too_low then false else controlled.line_pwm_on }

unfoldable pub line_head : LineTargets → Bool → ℕ → GunInput → Gun → ActiveZone → Gun
line_head t speed_too_low position s g z =
    if ltb_ℤ z.to (pos position)
    then line_off (record g { zones = (ring_pop g.zones).1 })
    else if leb_ℤ z.from (pos position)
    then line_in_zone t speed_too_low s g
    else record g { pin = false; line_pwm_on = false }

unfoldable pub line_pending : LineTargets → Bool → ℕ → GunInput → Gun → Gun
line_pending t speed_too_low position s g =
    if g.zones.count == 0
    then line_off g
    else elim (ring_peek g.zones 0) [ none ↦ g | some z ↦ line_head t speed_too_low position s g z ]

unfoldable pub line_gun : LineTargets → Bool → ℕ → GunInput → Gun → Gun
line_gun t speed_too_low position s g =
    if g.enabled
    then line_pending t speed_too_low position s g
    else record g { pin = false; line_active = false; line_in_hold = false }
