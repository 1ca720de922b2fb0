-- ===== src/Firmware/TestMode/Safety.antt =====
-- When a gun is on in test mode, and what the timeout does.
use machine_controller.Base.{ℕ, ◌<◌, ◌≡◌, ◌≢◌, refl, Bool, true, false, List, [], ◌∷◌, arith}
use machine_controller.Base.Int.{pos, ℤ, ◌<ℤ◌}
use machine_controller.Firmware.State.{Gun, GunInput, All, All-for_guns, sub32}
use machine_controller.Firmware.Lines.{LineTargets, phase_transition, bang_bang}
use machine_controller.Firmware.TestMode.{
  TestState, any_physical, any_active, test_clear, test_expiry, test_arm, test_dot_start,
  test_dot_fire, test_dot_gun, test_line_gun, wanted, test_timeout_ms,
}

test_dot_start-requested :
    (now : ℕ) (s : GunInput) (g : Gun) → (test_dot_start now s g).test_requested ≡ g.test_requested
unfolding test_dot_start
test_dot_start-requested now s g = ground arith

-- A gun that the dots test leaves on is one that is asked for, and the measured current is below the
-- threshold.
pub test_dot_gun-on :
    (now : ℕ) (threshold : ℤ) (s : GunInput) (g : Gun)
    → (test_dot_gun now threshold s g).pin ≡ true
    → (wanted s (test_dot_gun now threshold s g) ≡ true) × (pos s.adc_second <ℤ threshold)
unfolding test_dot_gun test_dot_fire
test_dot_gun-on now threshold s g on = ground (arith, test_dot_start-requested now s g)

pub test_line_gun-on :
    (t : LineTargets) (s : GunInput) (g : Gun)
    → (test_line_gun t s g).pin ≡ true
    → wanted s (test_line_gun t s g) ≡ true
unfolding test_line_gun bang_bang phase_transition
test_line_gun-on t s g on = ground arith

-- What the timeout leaves of a gun.
abbrev pub IsCleared : Gun → Type 0
IsCleared g = (g.test_requested ≡ false) × (g.test_dot_active ≡ false) × (g.pin ≡ false)

-- A test that runs for longer than the timeout is ended: the guns are off, their requests are
-- dropped, and `inhibit_until_idle` is set.
pub test_arm-timeout :
    (inp : ℕ → GunInput) (ms_arm ms_check : ℕ) (t : TestState)
    → any_active inp 0 t.guns ≡ true
    → t.inhibit_until_idle ≡ false
    → t.start_ms ≢ 0
    → test_timeout_ms < sub32 ms_check t.start_ms
    → let (run, t') = test_arm inp ms_arm ms_check t in
      (run ≡ false) × (t'.inhibit_until_idle ≡ true) × All IsCleared t'.guns
unfolding test_arm test_expiry
test_arm-timeout inp ms_arm ms_check t active free started late =
    ground
      (arith, All-for_guns IsCleared (λ i g. test_clear g) 0 t.guns (λ i g. (refl, refl, refl)))

-- After a timeout no test runs while a test input is held, however often the pass is made and
-- whatever the PC requests.
pub test_arm-inhibited :
    (inp : ℕ → GunInput) (ms_arm ms_check : ℕ) (t : TestState)
    → t.inhibit_until_idle ≡ true
    → any_physical inp 0 t.guns ≡ true
    → test_arm inp ms_arm ms_check t ≡ (false, record t { start_ms = 0 })
unfolding test_arm test_expiry
test_arm-inhibited inp ms_arm ms_check t held phys = ground arith

-- A pass of `updateGuns`: what it reads, and the guns as the code between the passes has left them.
pub record TestPass : Type 0 where
  pub inputs : ℕ → GunInput
  pub ms_arm : ℕ
  pub ms_check : ℕ
  pub guns : List Gun

abbrev pub run_pass : TestPass → TestState → Bool × TestState
run_pass p t = test_arm p.inputs p.ms_arm p.ms_check (record t { guns = p.guns })

-- Whether each pass runs a test.
unfoldable pub runs_of : List TestPass → TestState → List Bool
runs_of [] t = []
runs_of (p ∷ ps) t = let (run, t') = run_pass p t in run ∷ runs_of ps t'

abbrev pub IsHeld : TestPass → Type 0
IsHeld p = any_physical p.inputs 0 p.guns ≡ true

pub held_passes :
    (ps : List TestPass) (t : TestState)
    → t.inhibit_until_idle ≡ true
    → All IsHeld ps
    → All (λ run. run ≡ false) (runs_of ps t)
unfolding runs_of
held_passes [] t wait held = tt
held_passes (p ∷ ps) t wait (now, later) =
    let t1 : TestState = record t { guns = p.guns } in
    rw (test_arm-inhibited p.inputs p.ms_arm p.ms_check t1 wait now)
      (refl, held_passes ps (record t1 { start_ms = 0 }) wait later)
