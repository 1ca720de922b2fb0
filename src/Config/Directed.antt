-- ===== src/Config/Directed.antt =====
-- Channels whose port is configured in their direction, as `assignPortNames` leaves them.
use text.Mathlib.Text.{◌==◌ as str_eq}
use machine_controller.Base.{
  ℕ, ◌+◌, ◌≤◌, ◌<◌, ◌≡◌, sym, ap, ◌∙◌, true, [], ◌∷◌, String, some, arith, if_cases,
}
use machine_controller.Base.Int.{ℤ, pos, negsuc, ◌-ℤ◌}
use machine_controller.Base.Maps.{Map, insert, lookup}
use machine_controller.Base.Options.{some_inj}
use machine_controller.MachineCore.Types.{IoChannel}
use machine_controller.IoCard.Ports.{
  port_of_pin, port_base_offset, assign_port_names, pin_within_port, in_port, port_of_pin-in_port,
}
use machine_controller.Config.Pins.{port_pin_ranges, find_port}

-- A predicate on every channel of a map.
abbrev pub Every : (IoChannel → Type 0) → Map IoChannel → Type 0
Every P [] = Unit
Every P ((name, ch) ∷ m) = P ch × Every P m

pub insert-Every :
    (P : IoChannel → Type 0) (name : String) (ch : IoChannel) (m : Map IoChannel)
    → P ch
    → Every P m
    → Every P (insert name ch m)
unfolding insert
insert-Every P name ch [] p h = (p, tt)
insert-Every P name ch ((key, old) ∷ m) p h =
    if_cases (Every P) (str_eq key name) (λ _. (p, h.1))
      (λ _. (h.0, insert-Every P name ch m p h.1))

pub lookup-Every :
    (P : IoChannel → Type 0) (name : String) (m : Map IoChannel) (ch : IoChannel)
    → Every P m
    → lookup name m ≡ some ch
    → P ch
unfolding lookup
lookup-Every P name [] ch h e = ground arith
lookup-Every P name ((key, old) ∷ m) ch h e =
    if_cases (λ found. found ≡ some ch → P ch) (str_eq key name)
      (λ _ same. rw (sym (some_inj old ch same)) h.0)
      (λ _ later. lookup-Every P name m ch h.1 later) e

-- The channel's port is configured in the direction `want`, and its pin is one of the port's 8 bits.
pub record IsDirected (want : String) (ports : Map String) (ch : IoChannel) : Type 0 where
  pub configured : lookup ch.io_port ports ≡ some want
  pub within : in_port (pin_within_port ch) ≡ true

-- The ranges of the check are the ports that `assignPortNames` gives to pins.
find_port-pos :
    (n : ℕ) (port : String)
    → find_port (pos n) port_pin_ranges ≡ some port
    → (n < 24) × (port ≡ port_of_pin (pos n))
unfolding find_port port_of_pin
find_port-pos n port h = ground arith

within-port : (n base : ℕ) → base ≤ n → n < base + 8 → in_port (pos n -ℤ pos base) ≡ true
unfolding ◌-ℤ◌
within-port n base low high = ground arith

find_port-negsuc :
    {A : Type 0} (n : ℕ) (port : String) → find_port (negsuc n) port_pin_ranges ≡ some port → A
unfolding find_port
find_port-negsuc n port h = absurd (ground arith)

pub named-IsDirected :
    (want : String) (ports : Map String) (ch : IoChannel) (port : String)
    → find_port ch.pin port_pin_ranges ≡ some port
    → lookup port ports ≡ some want
    → IsDirected want ports (record ch { io_port = port_of_pin ch.pin })
unfolding pin_within_port
named-IsDirected want ports ch port h e = directed ch.pin h
  where
    directed :
        (pin : ℤ)
        → find_port pin port_pin_ranges ≡ some port
        → IsDirected want ports (record ch { pin = pin; io_port = port_of_pin pin })
    directed (pos n) h =
        let found = find_port-pos n port h in
        let place = port_of_pin-in_port n found.0 in
        record {
          configured = ap (λ k. lookup k ports) (sym found.1) ∙ e;
          within = within-port n (port_base_offset (port_of_pin (pos n))) place.0 place.1;
        }
    directed (negsuc n) h = find_port-negsuc n port h

pub assign_port_names-Every :
    (P Q : IoChannel → Type 0) (m : Map IoChannel)
    → ((ch : IoChannel) → P ch → Q (record ch { io_port = port_of_pin ch.pin }))
    → Every P m
    → Every Q (assign_port_names m)
unfolding assign_port_names
assign_port_names-Every P Q [] f h = tt
assign_port_names-Every P Q ((name, ch) ∷ m) f h = (f ch h.0, assign_port_names-Every P Q m f h.1)
