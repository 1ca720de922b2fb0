-- ===== src/Protocol/Requests.antt =====
-- The other messages of the program, as the firmware takes them.
use machine_controller.Base.{
  ◌-◌, ◌≡◌, refl, ap, ◌&&◌, Bool, true, false, List, String, arith, if◌then◌else◌,
}
use machine_controller.Base.Int.{ℤ, pos, pos_part, leb_ℤ}
use machine_controller.Base.Maps.{insert, lookup}
use machine_controller.Firmware.Platform.{Reals, Json}
use machine_controller.Firmware.State.{GlueRow, Gun, for_guns}
use machine_controller.Firmware.Controller.{Controller, shutdown_all_guns}
use machine_controller.Firmware.Messages.{
  update_at, test_apply, rearm, test_guns, test_on, handle_test, init_calibration, handle_kind,
  handle_message, kind_of,
}
use machine_controller.Protocol.{
  Message, assign, MmRow, test_gun_id, create_test_message, create_calibrate_message,
  create_heartbeat_message, create_plan_message,
}
use machine_controller.Protocol.Reading.{Rounding, ReadsMessage}

-- `toLowerCase` leaves a text that is in lower case.
pub record IsLowering (lower_case : String → String) : Type 0 where
  pub keeps_on : lower_case "on" ≡ "on"
  pub keeps_off : lower_case "off" ≡ "off"

-- The guns that a test message names, by a number from 1 to 4, or else all of them.
abbrev pub named_guns : ℤ → Bool → List Gun → List Gun
named_guns gun_index on gs =
    if leb_ℤ (pos 1) gun_index && leb_ℤ gun_index (pos 4)
    then update_at (pos_part gun_index - 1) (test_apply on) gs
    else for_guns (λ i. test_apply on) 0 gs

-- The messages without the guns' settings.
pub data Request (D : Type 0) : Type 0 where
  asks_test : ℤ → Bool → Request D
  asks_calibration : ℤ → Request D
  asks_heartbeat : Request D
  asks_plan : List (List (MmRow D)) → Request D

abbrev pub built : {D : Type 0} → Request D → Message D
built (asks_test gun_index on) = create_test_message gun_index on
built (asks_calibration page_length) = create_calibrate_message page_length
built asks_heartbeat = create_heartbeat_message
built (asks_plan guns) = create_plan_message guns

-- What they are to change.
abbrev pub meant : {D : Type 0} → Request D → Controller D → Controller D
meant (asks_test gun_index on) c = rearm on (record c { guns = named_guns gun_index on c.guns })
meant (asks_calibration page_length) c =
    shutdown_all_guns (record c { page_length = page_length; is_calibrating = true })
meant asks_heartbeat c = c
meant (asks_plan guns) c = c

module _ (R : Reals) (J : Json R.Double) (sort : List GlueRow → List GlueRow)
    (r : Rounding R.Double) where
  open R use {Double}
  open J use {Value, text, lower_case}

  test-state :
      (v : Value) (gun_index : ℤ) (on : Bool)
      → IsLowering lower_case
      → ReadsMessage J r v (create_test_message gun_index on)
      → test_on R J sort v ≡ on
  unfolding test_on create_test_message assign insert lookup
  test-state v gun_index true low h = rw (h.texts "state" "") (rw low.keeps_on refl)
  test-state v gun_index false low h = rw (h.texts "state" "") (rw low.keeps_off refl)

  test_guns-test_gun_id :
      (gun_index : ℤ) (on : Bool) (gs : List Gun)
      → test_guns R J sort (test_gun_id gun_index) on gs ≡ named_guns gun_index on gs
  unfolding test_guns test_gun_id
  test_guns-test_gun_id gun_index on gs = ground arith

  test-taken :
      (v : Value) (gun_index : ℤ) (on : Bool) (c : Controller Double)
      → IsLowering lower_case
      → ReadsMessage J r v (create_test_message gun_index on)
      → handle_message R J sort v c ≡ rearm on (record c { guns = named_guns gun_index on c.guns })
  unfolding handle_message kind_of handle_kind handle_test create_test_message assign insert lookup
  test-taken v gun_index on c low h = rw (h.texts "type" "") (
      rw (test-state v gun_index on low h) (
        rw (h.ints "gun" (pos 0)) (
          ap (λ gs. rearm on (record c { guns = gs }))
            (test_guns-test_gun_id gun_index on c.guns))))

  -- When the firmware handles a message that is read as it was built: of a test, exactly the gun that was
  -- named by a number from 1 to 4, and all guns for another number, are asked to test or to stop, and to
  -- ask for a test ends the waiting after a timeout; a calibration starts with the given length of the
  -- page and all guns off; a heartbeat and a plan change nothing.
  pub request-taken :
      (v : Value) (request : Request Double) (c : Controller Double)
      → IsLowering lower_case
      → ReadsMessage J r v (built request)
      → handle_message R J sort v c ≡ meant request c
  unfolding handle_message kind_of handle_kind init_calibration create_calibrate_message
      create_heartbeat_message create_plan_message assign insert lookup
  request-taken v (asks_test gun_index on) c low h = test-taken v gun_index on c low h
  request-taken v (asks_calibration page_length) c low h =
      rw (h.texts "type" "") (rw (h.ints "pageLength" (pos 1000)) refl)
  request-taken v asks_heartbeat c low h = rw (h.texts "type" "") refl
  request-taken v (asks_plan guns) c low h = rw (h.texts "type" "") refl
