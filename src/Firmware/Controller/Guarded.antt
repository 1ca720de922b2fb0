-- ===== src/Firmware/Controller/Guarded.antt =====
-- When `updateGuns` leaves a gun on at all.
use machine_controller.Base.{
  ℕ, ◌≡◌, ◌⊎◌, inl, inr, Bool, true, false, arith, Option-cases, if_cases,
}
use machine_controller.Base.Int.{ℤ}
use text.Mathlib.Text.{◌==◌ as str_eq}
use machine_controller.Firmware.Platform.{Reals}
use machine_controller.Firmware.State.{Gun, GunInput, set_gun, AllAt, AllAt-for_guns}
use machine_controller.Firmware.Dots.{dots_gun, dots_fire, dots_pending, dots_head, dots_in_zone}
use machine_controller.Firmware.Ring.{ActiveZone, ring_peek}
use machine_controller.Firmware.Lines.{
  LineTargets, line_gun, line_pending, line_head, line_in_zone, bang_bang, phase_transition,
}
use machine_controller.Firmware.TestMode.{wanted}
use machine_controller.Firmware.TestMode.Safety.{test_dot_gun-on, test_line_gun-on}
use machine_controller.Firmware.Controller.{
  Controller, Clock, shutdown_all_guns, line_targets, update_speed, test_pass, zone_pass, fire_pass,
  update_guns, armed, with_test,
}

-- A gun that is on is asked for by a test, or it and the controller are enabled.
abbrev pub IsGuarded : Bool → (ℕ → GunInput) → ℕ → Gun → Type 0
IsGuarded enabled inp i g =
    g.pin ≡ true → (wanted (inp i) g ≡ true) ⊎ ((enabled ≡ true) × (g.enabled ≡ true))

module _ (position : ℕ) (s : GunInput) (g : Gun) where
  dots_head-enabled : (z : ActiveZone) → (dots_head position s g z).enabled ≡ g.enabled
  unfolding dots_head dots_in_zone
  dots_head-enabled z = ground arith

  dots_pending-enabled : (dots_pending position s g).enabled ≡ g.enabled
  unfolding dots_pending
  dots_pending-enabled = elim (Option-cases (ring_peek g.zones 0)) [
    | inl e ↦ ground arith
    | inr (z, e) ↦ ground (arith, dots_head-enabled z)
  ]

  dots_gun-enabled :
      (threshold : ℤ)
      → (dots_gun position threshold s g).pin ≡ true
      → (dots_gun position threshold s g).enabled ≡ true
  unfolding dots_gun dots_fire
  dots_gun-enabled threshold on = ground (arith, dots_pending-enabled)

module _ (t : LineTargets) (slow : Bool) (position : ℕ) (s : GunInput) (g : Gun) where
  line_in_zone-enabled : (line_in_zone t slow s g).enabled ≡ g.enabled
  unfolding line_in_zone bang_bang phase_transition
  line_in_zone-enabled = ground arith

  line_pending-enabled : (line_pending t slow position s g).enabled ≡ g.enabled
  unfolding line_pending line_head
  line_pending-enabled = elim (Option-cases (ring_peek g.zones 0)) [
    | inl e ↦ ground arith
    | inr (z, e) ↦ ground (arith, line_in_zone-enabled)
  ]

  line_gun-enabled :
      (line_gun t slow position s g).pin ≡ true → (line_gun t slow position s g).enabled ≡ true
  unfolding line_gun
  line_gun-enabled on = ground (arith, line_pending-enabled)

module _ (R : Reals) (inp : ℕ → GunInput) (clock : Clock) where
  open R use {Double}

  abbrev Guarded : Bool → Controller Double → Type 0
  Guarded enabled c = AllAt (IsGuarded enabled inp) 0 c.guns

  test_pass-Guarded :
      (enabled : Bool) (c : Controller Double) → Guarded enabled (test_pass R inp clock c)
  unfolding test_pass
  test_pass-Guarded enabled c =
      if_cases (Guarded enabled) (str_eq c.config.type "dots")
        (λ e.
          AllAt-for_guns (IsGuarded enabled inp) _ 0 c.guns
            λ i g on. inl (test_dot_gun-on clock.ms_dots c.current_threshold (inp i) g on).0)
        (λ e.
          AllAt-for_guns (IsGuarded enabled inp) _ 0 c.guns
            λ i g on. inl (test_line_gun-on (line_targets R c) (inp i) g on))

  zone_pass-Guarded :
      (enabled : Bool) (c : Controller Double)
      → enabled ≡ true
      → Guarded enabled (zone_pass R inp c)
  unfolding zone_pass
  zone_pass-Guarded enabled c h =
      if_cases (Guarded enabled) (str_eq c.config.type "lines")
        (λ e.
          AllAt-for_guns (IsGuarded enabled inp) _ 0 c.guns
            λ i g on. inr (h, line_gun-enabled _ _ _ (inp i) g on))
        (λ e.
          AllAt-for_guns (IsGuarded enabled inp) _ 0 c.guns
            λ i g on. inr (h, dots_gun-enabled _ (inp i) g _ on))

  fire_pass-Guarded : (c : Controller Double) → Guarded c.config.enabled (fire_pass R inp clock c)
  unfolding fire_pass shutdown_all_guns
  fire_pass-Guarded c =
      if_cases (Guarded c.config.enabled) c.config.enabled
        (λ e. zone_pass-Guarded c.config.enabled (update_speed R clock.us_speed c) e)
        (λ e.
          AllAt-for_guns (IsGuarded c.config.enabled inp) (λ i. set_gun false) 0 c.guns
            λ i g on. absurd (cc))

  -- Outside of a calibration, a gun that is on after `updateGuns` is asked for by the PC or its test
  -- input, or both the controller and this gun are enabled. This holds in every mode.
  pub update_guns-IsGuarded :
      (c : Controller Double)
      → c.is_calibrating ≡ false
      → AllAt (IsGuarded c.config.enabled inp) 0 (update_guns R inp clock c).guns
  unfolding update_guns
  update_guns-IsGuarded c idle =
      if_cases (Guarded c.config.enabled) c.is_calibrating (λ e. absurd (cc))
        (λ _.
          if_cases (Guarded c.config.enabled) (armed R inp clock c).0
            (λ _. test_pass-Guarded c.config.enabled (with_test R (armed R inp clock c).1 c))
            (λ _. fire_pass-Guarded (with_test R (armed R inp clock c).1 c)))
