-- ===== src/Protocol/Setup.antt =====
-- The setup messages of the program, as the firmware takes them.
use machine_controller.Base.{
  ℕ, zero, suc, ◌≤◌, ◌≡◌, refl, ap, ◌∙◌, Bool, true, false, List, [], ◌∷◌, map, length, arith,
}
use machine_controller.Base.Int.{ℤ, pos, negsuc, ◌+ℤ◌}
use machine_controller.Base.Maps.{insert, lookup}
use machine_controller.Firmware.Platform.{Reals, Json}
use machine_controller.Firmware.State.{GlueRow, ControllerConfig, Gun}
use machine_controller.Firmware.Rows.{store_rows}
use machine_controller.Firmware.Controller.{Controller}
use machine_controller.Firmware.Messages.{
  update_at, clear_rings, row_of, configure_gun, configure_one, configure_guns, config_of,
  handle_config, handle_kind, handle_message, kind_of, setup,
}
use machine_controller.Protocol.{
  assign, MmRow, row_object, gun_object, gun_objects, SetupValues, create_controller_setup_message,
  create_config_message,
}
use machine_controller.Protocol.Reading.{
  Rounding, Pairs, no_pairs, pair, ReadsRow, ReadsGun, ReadsMessage,
}

-- Each gun is changed by the entry of the same place, from place `n` on.
abbrev pub zip_from : {E : Type 0} → (E → Gun → Gun) → ℕ → List E → List Gun → List Gun
zip_from f n [] gs = gs
zip_from f n (e ∷ es) [] = []
zip_from f zero (e ∷ es) (g ∷ gs) = f e g ∷ zip_from f zero es gs
zip_from f (suc n) (e ∷ es) (g ∷ gs) = g ∷ zip_from f n (e ∷ es) gs

zip_from-update_at :
    {E : Type 0} (f : E → Gun → Gun) (n : ℕ) (e : E) (es : List E) (gs : List Gun)
    → zip_from f (suc n) es (update_at n (f e) gs) ≡ zip_from f n (e ∷ es) gs
unfolding update_at
zip_from-update_at f n e [] [] = refl
zip_from-update_at f n e (x ∷ es) [] = refl
zip_from-update_at f zero e [] (g ∷ gs) = refl
zip_from-update_at f zero e (x ∷ es) (g ∷ gs) = refl
zip_from-update_at f (suc n) e [] (g ∷ gs) = ap (λ l. g ∷ l) (zip_from-update_at f n e [] gs)
zip_from-update_at f (suc n) e (x ∷ es) (g ∷ gs) =
    ap (λ l. g ∷ l) (zip_from-update_at f n e (x ∷ es) gs)

update_at-length : (n : ℕ) (f : Gun → Gun) (gs : List Gun) → length (update_at n f gs) ≡ length gs
unfolding update_at
update_at-length n f [] = refl
update_at-length zero f (g ∷ gs) = refl
update_at-length (suc n) f (g ∷ gs) = ap suc (update_at-length n f gs)

update_at_beyond : (n : ℕ) (f : Gun → Gun) (gs : List Gun) → length gs ≤ n → update_at n f gs ≡ gs
unfolding update_at
update_at_beyond n f [] h = refl
update_at_beyond zero f (g ∷ gs) h = ground arith
update_at_beyond (suc n) f (g ∷ gs) h = ap (λ l. g ∷ l) (update_at_beyond n f gs (omega arith))

update_at_same :
    (n : ℕ) (f h : Gun → Gun) (gs : List Gun)
    → ((g : Gun) → f g ≡ h g)
    → update_at n f gs ≡ update_at n h gs
unfolding update_at
update_at_same n f h [] e = refl
update_at_same zero f h (g ∷ gs) e = ap (λ x. x ∷ gs) (e g)
update_at_same (suc n) f h (g ∷ gs) e = ap (λ l. g ∷ l) (update_at_same n f h gs e)

module _ (R : Reals) (J : Json R.Double) (sort : List GlueRow → List GlueRow)
    (r : Rounding R.Double) where
  open R use {Double, ratio, of_int, to_int, mul}
  open J use {Value, int, contains, array}

  -- A row in pulses, from the position that the sensor's offset moves.
  abbrev pub in_pulses : ControllerConfig Double → MmRow Double → GlueRow
  in_pulses cfg row = record {
    from =
        to_int (mul (r.float_int row.from) cfg.encoder_pulses_per_mm)
        +ℤ cfg.sensor_offset_in_pulses;
    to = to_int (mul (r.float_int row.to) cfg.encoder_pulses_per_mm) +ℤ cfg.sensor_offset_in_pulses;
    space = to_int (mul (r.float row.space) cfg.encoder_pulses_per_mm);
  }

  abbrev pub take_gun : ControllerConfig Double → Bool × List (MmRow Double) → Gun → Gun
  take_gun cfg (enabled, rows) g = record g {
    enabled = enabled;
    rows = store_rows sort (map (in_pulses cfg) rows);
  }

  row_of-reads :
      (cfg : ControllerConfig Double) (v : Value) (row : MmRow Double)
      → ReadsRow J r v (row_object row)
      → row_of R J sort cfg v ≡ in_pulses cfg row
  unfolding row_of row_object assign insert lookup
  row_of-reads cfg v row h = rw (h.floats "from") (rw (h.floats "to") (rw (h.floats "space") refl))

  rows-read :
      (cfg : ControllerConfig Double) (vs : List Value) (rows : List (MmRow Double))
      → Pairs (ReadsRow J r) vs (map row_object rows)
      → map (row_of R J sort cfg) vs ≡ map (in_pulses cfg) rows
  rows-read cfg vs [] no_pairs = refl
  rows-read cfg _ (row ∷ rows) (pair {a = a} {xs = xs} h hs) =
      rw (row_of-reads cfg a row h) (ap (λ l. in_pulses cfg row ∷ l) (rows-read cfg xs rows hs))

  configure_gun-reads :
      (cfg : ControllerConfig Double) (v : Value) (i : ℕ) (e : Bool × List (MmRow Double)) (g : Gun)
      → ReadsGun J r v (gun_object i e)
      → configure_gun R J sort cfg v g ≡ take_gun cfg e g
  unfolding configure_gun gun_object assign insert lookup
  configure_gun-reads cfg v i (enabled, rows) g h =
      rw (h.flags "enabled" true)
        (rw (h.members "rows") (rw (rows-read cfg _ rows (h.arrays "rows")) refl))

  configure_one-reads :
      (cfg : ControllerConfig Double) (v : Value) (i : ℕ) (e : Bool × List (MmRow Double))
      (gs : List Gun)
      → length gs ≡ 4
      → ReadsGun J r v (gun_object i e)
      → configure_one R J sort cfg v gs ≡ update_at (suc i) (take_gun cfg e) gs
  unfolding configure_one gun_object assign insert lookup
  configure_one-reads cfg v i e gs len h =
      let same =
        update_at_same (suc i) (configure_gun R J sort cfg v) (take_gun cfg e) gs
          (λ g. configure_gun-reads cfg v i e g h) in
      let beyond = update_at_beyond (suc i) (take_gun cfg e) gs in
      rw (h.ints "gunId" (negsuc 0)) (ground (arith, same, beyond))

  configure_guns-reads :
      (cfg : ControllerConfig Double) (vs : List Value) (i : ℕ)
      (es : List (Bool × List (MmRow Double))) (gs : List Gun)
      → length gs ≡ 4
      → Pairs (ReadsGun J r) vs (gun_objects i es)
      → configure_guns R J sort cfg vs gs ≡ zip_from (take_gun cfg) (suc i) es gs
  unfolding configure_guns gun_objects
  configure_guns-reads cfg vs i [] gs len no_pairs = refl
  configure_guns-reads cfg _ i (e ∷ es) gs len (pair {a = a} {xs = xs} h hs) =
      let next = update_at (suc i) (take_gun cfg e) gs in
      ap (configure_guns R J sort cfg xs) (configure_one-reads cfg a i e gs len h)
      ∙ (configure_guns-reads cfg xs (suc i) es next
            (update_at-length (suc i) (take_gun cfg e) gs ∙ len) hs
          ∙ zip_from-update_at (take_gun cfg) (suc i) e es gs)

  -- The fields that the message has take its values, the others their defaults.
  abbrev pub taken_config : SetupValues Double → ControllerConfig Double
  taken_config s = record {
    type = s.controller_type;
    enabled = s.controller_enabled;
    encoder_pulses_per_mm = r.double s.encoder_resolution;
    sensor_offset = s.sensor_offset;
    sensor_offset_in_pulses = to_int (mul (of_int s.sensor_offset) (r.double s.encoder_resolution));
    start_current = r.double s.start_current;
    start_duration = of_int (pos 500);
    hold_current = r.double s.hold_current;
    minimum_speed = ratio 0 1;
    dot_size = s.dot_size;
  }

  config_of-reads :
      (v : Value) (s : SetupValues Double)
      → ReadsMessage J r v (create_controller_setup_message s)
      → config_of R J sort v ≡ taken_config s
  unfolding config_of create_controller_setup_message assign insert lookup
  config_of-reads v s h = rw (h.texts "controllerType" "dots") (
      rw (h.flags "enabled" false) (
        rw (h.numbers "encoder" (ratio 1 1)) (
          rw (h.ints "sensorOffset" (pos 10)) (
            rw (h.numbers "startCurrent" (ratio 1 1)) (
              rw (h.ints "startDuration" (pos 500)) (
                rw (h.numbers "holdCurrent" (ratio 5 10)) (
                  rw (h.numbers "minimumSpeed" (ratio 0 1))
                    (rw (h.texts "dotSize" "medium") refl))))))))

  handle_config-reads :
      (v : Value) (s : SetupValues Double) (c : Controller Double)
      → length c.guns ≡ 4
      → ReadsMessage J r v (create_controller_setup_message s)
      → (handle_kind R J sort setup v c).guns
        ≡ clear_rings (zip_from (take_gun (taken_config s)) 1 s.guns c.guns)
  unfolding handle_kind handle_config create_controller_setup_message assign insert lookup
  handle_config-reads v s c len h = rw (config_of-reads v s h) (
      rw (h.members "guns")
        (rw (configure_guns-reads (taken_config s) _ 0 s.guns c.guns len (h.arrays "guns")) refl))

  handle_config-config :
      (v : Value) (s : SetupValues Double) (c : Controller Double)
      → ReadsMessage J r v (create_controller_setup_message s)
      → (handle_kind R J sort setup v c).config ≡ taken_config s
  unfolding handle_kind handle_config
  handle_config-config v s c h = config_of-reads v s h

  setup-kind :
      (v : Value) (s : SetupValues Double)
      → ReadsMessage J r v (create_controller_setup_message s)
      → kind_of (J.text v "type" "") ≡ setup
  unfolding kind_of create_controller_setup_message assign insert lookup
  setup-kind v s h = rw (h.texts "type" "") refl

  -- When the firmware, with its four guns, handles a message of `createControllerSetupMessage` that is
  -- read as it was built, it takes the given settings, but 500 for the start's duration and 0 for the
  -- minimum speed. The first gun keeps its rows and enabling; each other gun takes the entry of the gun
  -- before it, and a fourth entry or a later one is ignored. All rings are cleared.
  pub setup-taken :
      (v : Value) (s : SetupValues Double) (c : Controller Double)
      → length c.guns ≡ 4
      → ReadsMessage J r v (create_controller_setup_message s)
      → ((handle_message R J sort v c).config ≡ taken_config s)
        × ((handle_message R J sort v c).guns
            ≡ clear_rings (zip_from (take_gun (taken_config s)) 1 s.guns c.guns))
  unfolding handle_message
  setup-taken v s c len h =
      rw (setup-kind v s h) (handle_config-config v s c h, handle_config-reads v s c len h)

  -- A message of `createConfigMessage` has no other fields, so it disables the controller, and sets its
  -- type to dots. The guns keep their rows, and lose their zones.
  pub config-resets :
      (v : Value) (resolution : Double) (offset : ℤ) (c : Controller Double)
      → ReadsMessage J r v (create_config_message resolution offset)
      → ((handle_message R J sort v c).config.type ≡ "dots")
        × (((handle_message R J sort v c).config.enabled ≡ false)
            × ((handle_message R J sort v c).guns ≡ clear_rings c.guns))
  unfolding handle_message kind_of handle_kind handle_config config_of create_config_message assign
      insert lookup
  config-resets v resolution offset c h =
      rw (h.texts "type" "")
        (h.texts "controllerType" "dots", (h.flags "enabled" false, rw (h.members "guns") refl))
