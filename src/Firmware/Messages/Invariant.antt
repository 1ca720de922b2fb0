-- ===== src/Firmware/Messages/Invariant.antt =====
-- What the handlers keep: valid rings, and guns that stay off during a calibration.
use machine_controller.Base.{
  ℕ, zero, suc, ◌≡◌, refl, Bool, true, false, List, [], ◌∷◌, Bytes, Option, none, some, if_cases,
  ◌-◌, ◌&&◌, if◌then◌else◌,
}
use machine_controller.Base.Int.{ℤ, pos, negsuc, pos_part, leb_ℤ, ltb_ℤ}
use machine_controller.Firmware.Platform.{Reals, Json}
use machine_controller.Firmware.Ring.Inv.{IsValid, ring_clear-IsValid}
use machine_controller.Firmware.State.{
  ControllerConfig, GlueRow, Gun, for_guns, All, All-for_guns, All-for_guns_keep,
}
use machine_controller.Firmware.Controller.{Controller, shutdown_all_guns}
use machine_controller.Firmware.Messages.{
  update_at, test_apply, clear_rings, configure_gun, configure_one, configure_guns, config_of,
  handle_config, init_calibration, calibration_edge, rearm, test_on, test_guns, handle_test, Kind,
  setup, test, calibrate, other, handle_kind, handle_message, handle_frames, process_serial,
}

abbrev pub IsOff : Gun → Type 0
IsOff g = g.pin ≡ false

abbrev pub HasRing : Gun → Type 0
HasRing g = IsValid g.zones

-- All rings are valid, and during a calibration all guns are off.
pub record IsSafe {D : Type 0} (c : Controller D) : Type 0 where
  pub rings : All HasRing c.guns
  pub off : c.is_calibrating ≡ true → All IsOff c.guns

All-if :
    (P : Gun → Type 0) (b : Bool) (xs ys : List Gun)
    → All P xs
    → All P ys
    → All P (if b then xs else ys)
All-if P true xs ys h k = h
All-if P false xs ys h k = k

update_at-All :
    (P : Gun → Type 0) (i : ℕ) (f : Gun → Gun) (gs : List Gun)
    → ((g : Gun) → P g → P (f g))
    → All P gs
    → All P (update_at i f gs)
unfolding update_at
update_at-All P i f [] keep h = tt
update_at-All P zero f (g ∷ gs) keep h = (keep g h.0, h.1)
update_at-All P (suc i) f (g ∷ gs) keep h = (h.0, update_at-All P i f gs keep h.1)

clear_rings-HasRing : (gs : List Gun) → All HasRing gs → All HasRing (clear_rings gs)
unfolding clear_rings
clear_rings-HasRing gs h = All-for_guns_keep HasRing _ 0 gs (λ j g v. ring_clear-IsValid v) h

clear_rings-IsOff : (gs : List Gun) → All IsOff gs → All IsOff (clear_rings gs)
unfolding clear_rings
clear_rings-IsOff gs h = All-for_guns_keep IsOff _ 0 gs (λ j g v. v) h

test_apply-HasRing : (on : Bool) (g : Gun) → HasRing g → HasRing (test_apply on g)
unfolding test_apply
test_apply-HasRing on g v = if_cases HasRing on (λ _. v) (λ _. v)

test_apply-IsOff : (on : Bool) (g : Gun) → IsOff g → IsOff (test_apply on g)
unfolding test_apply
test_apply-IsOff on g v = if_cases IsOff on (λ _. v) (λ _. refl)

rearm-IsSafe : {D : Type 0} (on : Bool) (c : Controller D) → IsSafe c → IsSafe (rearm on c)
unfolding rearm
rearm-IsSafe true c s = record { rings = s.rings; off = s.off }
rearm-IsSafe false c s = s

shutdown-IsSafe :
    {D : Type 0} (c : Controller D) → All HasRing c.guns → IsSafe (shutdown_all_guns c)
unfolding shutdown_all_guns
shutdown-IsSafe c h = record {
  rings = All-for_guns_keep HasRing _ 0 c.guns (λ j g v. v) h;
  off = λ _. All-for_guns IsOff _ 0 c.guns (λ j g. refl);
}

module _ (R : Reals) (J : Json R.Double) (sort : List GlueRow → List GlueRow) where
  open R use {Double}
  open J use {Value, parse, int, contains, array}

  module _ (cfg : ControllerConfig Double) (P : Gun → Type 0)
      (keep : (j : Value) (g : Gun) → P g → P (configure_gun R J sort cfg j g)) where
    configure_one-All :
        (j : Value) (gs : List Gun) → All P gs → All P (configure_one R J sort cfg j gs)
    unfolding configure_one
    configure_one-All j gs h =
        All-if P
          (leb_ℤ (pos 0) (int j "gunId" (negsuc 0)) && ltb_ℤ (int j "gunId" (negsuc 0)) (pos 4))
          (update_at (pos_part (int j "gunId" (negsuc 0))) (configure_gun R J sort cfg j) gs) gs
          (update_at-All P (pos_part (int j "gunId" (negsuc 0))) (configure_gun R J sort cfg j) gs
            (keep j) h)
          h

    configure_guns-All :
        (js : List Value) (gs : List Gun) → All P gs → All P (configure_guns R J sort cfg js gs)
    unfolding configure_guns
    configure_guns-All [] gs h = h
    configure_guns-All (j ∷ js) gs h =
        configure_guns-All js (configure_one R J sort cfg j gs) (configure_one-All j gs h)

  configured : Value → Controller Double → List Gun
  configured j c =
      if contains j "guns"
      then configure_guns R J sort (config_of R J sort j) (array j "guns") c.guns
      else c.guns

  configured-All :
      (P : Gun → Type 0) (j : Value) (c : Controller Double)
      → ((k : Value) (g : Gun) → P g → P (configure_gun R J sort (config_of R J sort j) k g))
      → All P c.guns
      → All P (configured j c)
  unfolding configured
  configured-All P j c keep h =
      All-if P (contains j "guns")
        (configure_guns R J sort (config_of R J sort j) (array j "guns") c.guns) c.guns
        (configure_guns-All (config_of R J sort j) P keep (array j "guns") c.guns h) h

  handle_config-IsSafe :
      (j : Value) (c : Controller Double) → IsSafe c → IsSafe (handle_config R J sort j c)
  unfolding handle_config configure_gun configured
  handle_config-IsSafe j c s = record {
    rings = clear_rings-HasRing (configured j c) (configured-All HasRing j c (λ k g v. v) s.rings);
    off = λ e. clear_rings-IsOff (configured j c) (configured-All IsOff j c (λ k g v. v) (s.off e));
  }

  test_guns-All :
      (P : Gun → Type 0) (gun : ℤ) (on : Bool) (gs : List Gun)
      → ((g : Gun) → P g → P (test_apply on g))
      → All P gs
      → All P (test_guns R J sort gun on gs)
  unfolding test_guns
  test_guns-All P gun on gs keep h =
      let one : List Gun = update_at (pos_part gun - 1) (test_apply on) gs in
      All-if P (leb_ℤ gun (pos 0)) (for_guns (λ i. test_apply on) 0 gs)
        (if leb_ℤ gun (pos 4) then one else gs)
        (All-for_guns_keep P (λ i. test_apply on) 0 gs (λ i. keep) h)
        (All-if P (leb_ℤ gun (pos 4)) one gs
          (update_at-All P (pos_part gun - 1) (test_apply on) gs keep h) h)

  handle_test-IsSafe :
      (j : Value) (c : Controller Double) → IsSafe c → IsSafe (handle_test R J sort j c)
  unfolding handle_test
  handle_test-IsSafe j c s =
      let gun : ℤ = int j "gun" (pos 0) in
      let on : Bool = test_on R J sort j in
      rearm-IsSafe on _ (record {
        rings = test_guns-All HasRing gun on c.guns (test_apply-HasRing on) s.rings;
        off = λ e. test_guns-All IsOff gun on c.guns (test_apply-IsOff on) (s.off e);
      })

  init_calibration-IsSafe :
      (j : Value) (c : Controller Double) → IsSafe c → IsSafe (init_calibration R J sort j c)
  unfolding init_calibration
  init_calibration-IsSafe j c s = shutdown-IsSafe _ s.rings

  pub calibration_edge-IsSafe :
      (count : ℕ) (st : Bool) (c : Controller Double)
      → IsSafe c
      → IsSafe (calibration_edge R J sort count st c)
  unfolding calibration_edge
  calibration_edge-IsSafe count false c s = record { rings = s.rings; off = s.off }
  calibration_edge-IsSafe count true c s = record { rings = s.rings; off = λ e. absurd (cc) }

  handle_kind-IsSafe :
      (k : Kind) (j : Value) (c : Controller Double)
      → IsSafe c
      → IsSafe (handle_kind R J sort k j c)
  unfolding handle_kind
  handle_kind-IsSafe setup j c s = handle_config-IsSafe j c s
  handle_kind-IsSafe test j c s = handle_test-IsSafe j c s
  handle_kind-IsSafe calibrate j c s = init_calibration-IsSafe j c s
  handle_kind-IsSafe other j c s = s

  handle_message-IsSafe :
      (j : Value) (c : Controller Double) → IsSafe c → IsSafe (handle_message R J sort j c)
  unfolding handle_message
  handle_message-IsSafe j c s = handle_kind-IsSafe _ j c s

  handle_frames-IsSafe :
      (ms : List Bytes) (c : Controller Double) → IsSafe c → IsSafe (handle_frames R J sort ms c)
  unfolding handle_frames
  handle_frames-IsSafe [] c s = s
  handle_frames-IsSafe (m ∷ ms) c s = handle_frames-IsSafe ms _ (handled (parse m))
    where
      handled :
          (o : Option Value) → IsSafe (elim o [ none ↦ c | some j ↦ handle_message R J sort j c ])
      handled none = s
      handled (some j) = handle_message-IsSafe j c s

  pub process_serial-IsSafe :
      (bytes : Bytes) (c : Controller Double) → IsSafe c → IsSafe (process_serial R J sort bytes c)
  unfolding process_serial
  process_serial-IsSafe bytes c s =
      handle_frames-IsSafe _ _ (record { rings = s.rings; off = s.off })
