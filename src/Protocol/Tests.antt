-- ===== src/Protocol/Tests.antt =====
-- The theorems on messages with concrete ones. A value of the firmware's library is the object that was
-- built, at its depth; numbers are whole.
use machine_controller.Base.{◌≡◌, refl, true, false, List, [], ◌∷◌, map, String, Option, none}
use machine_controller.Base.Int.{ℤ, pos}
use machine_controller.Base.Maps.{lookup}
use machine_controller.Firmware.Platform.{Json}
use machine_controller.Firmware.State.{GlueRow}
use machine_controller.Firmware.Messages.{handle_message, clear_rings}
use machine_controller.Firmware.Tests.Data.{integers, controller}
use machine_controller.Protocol.{
  Field, Row, GunPart, Message, SetupValues, create_controller_setup_message,
}
use machine_controller.Protocol.Reading.{
  Rounding, Pairs, no_pairs, pair, ReadsRow, ReadsGun, ReadsMessage, is_member, text_or, flag_or,
  int_or, number_or, float_of, elements,
}
use machine_controller.Protocol.Setup.{setup-taken, taken_config, take_gun, zip_from}
use machine_controller.Protocol.Requests.{asks_test, built, meant, request-taken}

pub data Value : Type 0 where
  row : Row ℤ → Value
  gun : GunPart ℤ → Value
  message : Message ℤ → Value

abbrev pub exact : Rounding ℤ
exact = record { double = λ d. d; float = λ d. d; double_int = λ n. n; float_int = λ n. n }

-- A reader at each depth.
abbrev read : {B : Type 0} → ((A : Type 0) → Option (Field ℤ A) → B) → Value → String → B
read f (row o) k = f Unit (lookup k o)
read f (gun o) k = f (Row ℤ) (lookup k o)
read f (message o) k = f (GunPart ℤ) (lookup k o)

abbrev children : Value → String → List Value
-- A row's arrays hold nothing to read.
children (row o) k = map (λ u. row o) (elements (lookup k o))
children (gun o) k = map row (elements (lookup k o))
children (message o) k = map gun (elements (lookup k o))

abbrev pub objects : Json ℤ
objects = record {
  Value = Value;
  parse = λ b. none;
  contains = λ v k. read (λ A f. is_member f) v k;
  text = λ v k d. read (λ A f. text_or f d) v k;
  flag = λ v k d. read (λ A f. flag_or f d) v k;
  int = λ v k d. read (λ A f. int_or f d) v k;
  number = λ v k d. read (λ A f. number_or exact f d) v k;
  array = children;
  float = λ v k. read (λ A f. float_of exact f) v k;
  lower_case = λ s. s;
}

map-Pairs :
    {A : Type 0} (P : Value → A → Type 0) (f : A → Value) (xs : List A)
    → ((x : A) → P (f x) x)
    → Pairs P (map f xs) xs
map-Pairs P f [] h = no_pairs
map-Pairs P f (x ∷ xs) h = pair (h x) (map-Pairs P f xs h)

row-ReadsRow : (o : Row ℤ) → ReadsRow objects exact (row o) o
row-ReadsRow o = record {
  members = λ k. refl;
  texts = λ k d. refl;
  flags = λ k d. refl;
  ints = λ k d. refl;
  numbers = λ k d. refl;
  floats = λ k. refl;
  arrays = λ k. map-Pairs _ (λ u. row o) _ (λ u. tt);
}

gun-ReadsGun : (o : GunPart ℤ) → ReadsGun objects exact (gun o) o
gun-ReadsGun o = record {
  members = λ k. refl;
  texts = λ k d. refl;
  flags = λ k d. refl;
  ints = λ k d. refl;
  numbers = λ k d. refl;
  floats = λ k. refl;
  arrays = λ k. map-Pairs _ row _ row-ReadsRow;
}

pub message-ReadsMessage : (o : Message ℤ) → ReadsMessage objects exact (message o) o
message-ReadsMessage o = record {
  members = λ k. refl;
  texts = λ k d. refl;
  flags = λ k d. refl;
  ints = λ k d. refl;
  numbers = λ k d. refl;
  floats = λ k. refl;
  arrays = λ k. map-Pairs _ gun _ gun-ReadsGun;
}

abbrev pub unsorted : List GlueRow → List GlueRow
unsorted rows = rows

-- Two guns are set up.
abbrev values : SetupValues ℤ
values = record {
  controller_type = "lines";
  encoder_resolution = pos 10;
  sensor_offset = pos 4;
  controller_enabled = true;
  guns = (true, record { from = pos 10; to = pos 50; space = pos 5 } ∷ []) ∷ (false, []) ∷ [];
  start_current = pos 2;
  start_duration_ms = pos 1;
  hold_current = pos 1;
  dot_size = "large";
}

setup-taken_example :
    let v = message (create_controller_setup_message values) in
    ((handle_message integers objects unsorted v controller).config
      ≡ taken_config integers objects unsorted exact values)
    × ((handle_message integers objects unsorted v controller).guns
        ≡ clear_rings (
            zip_from
              (take_gun integers objects unsorted exact
                (taken_config integers objects unsorted exact values))
              1
              values.guns
              controller.guns))
setup-taken_example =
    setup-taken integers objects unsorted exact (message (create_controller_setup_message values))
      values controller refl (message-ReadsMessage (create_controller_setup_message values))

request-taken_example :
    handle_message integers objects unsorted (message (built (asks_test (pos 2) true))) controller
    ≡ meant (asks_test (pos 2) true) controller
request-taken_example =
    request-taken integers objects unsorted exact (message (built (asks_test (pos 2) true)))
      (asks_test (pos 2) true) controller (record { keeps_on = refl; keeps_off = refl })
      (message-ReadsMessage (built (asks_test (pos 2) true)))
