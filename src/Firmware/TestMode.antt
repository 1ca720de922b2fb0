-- ===== src/Firmware/TestMode.antt =====
-- Test mode of `updateGuns`: the guns that the PC or a test input asks for, whatever the encoder says.
pub mod Safety
use machine_controller.Base.{
  ℕ, suc, ◌+◌, ◌%◌, ◌^◌, Bool, true, false, List, [], ◌∷◌, ltb, leb, ◌==◌, ◌&&◌, ◌||◌, not,
  if◌then◌else◌,
}
use machine_controller.Base.Int.{ℤ, pos, leb_ℤ}
use machine_controller.Firmware.State.{Gun, GunInput, in_deadband, set_gun, sub32, for_guns}
use machine_controller.Firmware.Lines.{LineTargets, phase_transition, bang_bang}

abbrev pub test_timeout_ms : ℕ
test_timeout_ms = 30000

abbrev pub period_ms : ℕ
period_ms = 20

-- The scan of the requests and of the test inputs.
unfoldable pub any_physical : (ℕ → GunInput) → ℕ → List Gun → Bool
any_physical inp i [] = false
any_physical inp i (g ∷ gs) = (inp i).phys_scan || any_physical inp (suc i) gs

unfoldable pub any_active : (ℕ → GunInput) → ℕ → List Gun → Bool
any_active inp i [] = false
any_active inp i (g ∷ gs) = (g.test_requested || (inp i).phys_scan) || any_active inp (suc i) gs

-- What the timeout does to a gun.
abbrev pub test_clear : Gun → Gun
test_clear g = record g {
  test_requested = false;
  test_dot_active = false;
  test_next_dot_ms = 0;
  line_in_hold = false;
  line_pwm_on = false;
  line_phase_ms = 0;
  pin = false;
}

-- The globals of the test mode and the guns.
pub record TestState : Type 0 where
  pub start_ms : ℕ
  pub inhibit_until_idle : Bool
  pub guns : List Gun

-- Merges the requests, keeps them blocked after a timeout, and applies the timeout. `ms_arm` and
-- `ms_check` are the two readings of the clock. The result says if a test is to run.
unfoldable pub test_expiry : ℕ → ℕ → Bool → TestState → Bool × TestState
test_expiry ms_arm ms_check any t =
    if any
    then (let start : ℕ = if t.start_ms == 0 then ms_arm else t.start_ms in
        if ltb test_timeout_ms (sub32 ms_check start)
        then (
          false,
          record {
            start_ms = 0;
            inhibit_until_idle = true;
            guns = for_guns (λ i g. test_clear g) 0 t.guns;
          },
        )
        else (true, record t { start_ms = start }))
    else (false, record t { start_ms = 0 })

unfoldable pub test_arm : (ℕ → GunInput) → ℕ → ℕ → TestState → Bool × TestState
test_arm inp ms_arm ms_check t =
    let active : Bool = any_active inp 0 t.guns in
    let phys : Bool = any_physical inp 0 t.guns in
    if t.inhibit_until_idle
    then (if phys
        then test_expiry ms_arm ms_check false t
        else test_expiry ms_arm ms_check active (record t { inhibit_until_idle = false }))
    else test_expiry ms_arm ms_check active t

abbrev pub wanted : GunInput → Gun → Bool
wanted s g = g.test_requested || s.phys_run

-- One pass of the dots test, at the time `now`.
unfoldable pub test_dot_start : ℕ → GunInput → Gun → Gun
test_dot_start now s g =
    let armed : Gun = if g.test_next_dot_ms == 0 then record g { test_next_dot_ms = now } else g in
    if ltb (sub32 now armed.test_next_dot_ms) (2 ^ 31)
    then record armed {
      test_next_dot_ms = (armed.test_next_dot_ms + period_ms) % 2 ^ 32;
      test_dot_active = if in_deadband s.adc_first then true else armed.test_dot_active;
    }
    else armed

unfoldable pub test_dot_fire : ℤ → GunInput → Gun → Gun
test_dot_fire threshold s g =
    if g.test_dot_active
    then (if leb_ℤ threshold (pos s.adc_second)
        then record g { pin = false; test_dot_active = false }
        else set_gun true g)
    else set_gun false g

unfoldable pub test_dot_gun : ℕ → ℤ → GunInput → Gun → Gun
test_dot_gun now threshold s g =
    if wanted s g
    then test_dot_fire threshold s (test_dot_start now s g)
    else record g { pin = false; test_dot_active = false; test_next_dot_ms = 0 }

-- One pass of the lines test.
unfoldable pub test_line_gun : LineTargets → GunInput → Gun → Gun
test_line_gun t s g =
    if wanted s g
    then (let started : Gun =
          if g.line_phase_ms == 0
          then record g { line_in_hold = false; line_phase_ms = s.ms_first }
          else g in
        let controlled : Gun = bang_bang t s (phase_transition t s started) in
        set_gun controlled.line_pwm_on controlled)
    else record g { pin = false; line_in_hold = false; line_pwm_on = false; line_phase_ms = 0 }
