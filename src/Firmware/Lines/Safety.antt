-- ===== src/Firmware/Lines/Safety.antt =====
-- When a gun is on in lines mode, and how its current is controlled.
use machine_controller.Base.{
  ℕ, ◌≡◌, ◌≢◌, inl, inr, Bool, true, false, some, arith, Bool-cases, Option-cases, if◌then◌else◌,
}
use machine_controller.Base.Int.{pos, ◌+ℤ◌, ◌≤ℤ◌}
use machine_controller.Firmware.Ring.{ActiveZone, ring_peek}
use machine_controller.Firmware.Ring.Refine.{ring_peek-ne-none}
use machine_controller.Firmware.Ring.Inv.{IsValid}
use machine_controller.Firmware.State.{Gun, GunInput, hysteresis}
use machine_controller.Firmware.Lines.{
  LineTargets, phase_transition, bang_bang, line_in_zone, line_head, line_pending, line_gun,
}

-- The current that the control of a pass does not allow to rise: above the target of the phase by
-- more than the hysteresis.
abbrev pub AtMost : LineTargets → GunInput → Gun → Type 0
AtMost t s g =
    pos s.adc_first ≤ℤ (if g.line_in_hold then t.hold_adc else t.start_adc) +ℤ pos hysteresis

bang_bang-AtMost :
    (t : LineTargets) (s : GunInput) (g : Gun)
    → (bang_bang t s g).line_pwm_on ≡ true
    → AtMost t s (bang_bang t s g)
unfolding bang_bang
bang_bang-AtMost t s g on = ground arith

line_in_zone-on :
    (t : LineTargets) (slow : Bool) (s : GunInput) (g : Gun)
    → (line_in_zone t slow s g).pin ≡ true
    → (slow ≡ false) × AtMost t s (line_in_zone t slow s g)
unfolding line_in_zone
line_in_zone-on t slow s g on =
    let started : Gun =
      if g.line_active
      then g
      else record g { line_active = true; line_in_hold = false; line_phase_ms = s.ms_first } in
    ground (arith, bang_bang-AtMost t s (phase_transition t s started))

line_head-on :
    (t : LineTargets) (slow : Bool) (position : ℕ) (s : GunInput) (g : Gun) (z : ActiveZone)
    → (line_head t slow position s g z).pin ≡ true
    → (z.from ≤ℤ pos position)
      × (pos position ≤ℤ z.to)
      × (slow ≡ false)
      × AtMost t s (line_head t slow position s g z)
unfolding line_head
line_head-on t slow position s g z on = ground (arith, line_in_zone-on t slow s g)

-- The head zone that lets a gun be on.
abbrev pub InZone : ℕ → Gun → Type 0
InZone position g =
    (z : ActiveZone) × (g.zones.count ≢ 0)
    × (ring_peek g.zones 0 ≡ some z)
    × (z.from ≤ℤ pos position)
    × (pos position ≤ℤ z.to)

line_pending-on :
    (t : LineTargets) (slow : Bool) (position : ℕ) (s : GunInput) (g : Gun)
    → IsValid g.zones
    → (line_pending t slow position s g).pin ≡ true
    → InZone position g × (slow ≡ false) × AtMost t s (line_pending t slow position s g)
unfolding line_pending
line_pending-on t slow position s g v on = elim (Option-cases (ring_peek g.zones 0)) [
  | inl e ↦ absurd (ring_peek-ne-none g.zones v e)
  | inr (z, e) ↦
      let some_left : g.zones.count ≢ 0 = ground arith in
      let h : (z.from ≤ℤ pos position)
          × (pos position ≤ℤ z.to)
          × (slow ≡ false)
          × AtMost t s (line_head t slow position s g z) =
        line_head-on t slow position s g z (ground arith) in
      ((z, some_left, e, h.0, h.1), h.2, ground arith)
]

-- A gun with a valid ring that is on after a pass in lines mode is enabled, the speed does not gate
-- it, the position lies within the head zone, and the measured current exceeds the target of its
-- phase by no more than the hysteresis.
pub line_gun-on :
    (t : LineTargets) (slow : Bool) (position : ℕ) (s : GunInput) (g : Gun)
    → IsValid g.zones
    → (line_gun t slow position s g).pin ≡ true
    → (g.enabled ≡ true)
      × InZone position g
      × (slow ≡ false)
      × AtMost t s (line_gun t slow position s g)
unfolding line_gun
line_gun-on t slow position s g v on = elim (Bool-cases g.enabled) [
  | inl e ↦
      let h : InZone position g × (slow ≡ false) × AtMost t s (line_pending t slow position s g) =
        line_pending-on t slow position s g v (ground arith) in
      (e, h.0, h.1, ground arith)
  | inr e ↦ absurd (ground arith)
]
