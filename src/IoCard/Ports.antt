-- ===== src/IoCard/Ports.antt =====
-- The four ports of the card and the pins that belong to them.
use machine_controller.Base.{
  ℕ, ◌+◌, ◌-◌, ◌/◌, ◌%◌, ◌^◌, Bool, ◌&&◌, [], ◌∷◌, String, if◌then◌else◌, ◌≤◌, ◌<◌, arith, if_cases,
}
use machine_controller.Base.Int.{ℤ, pos, ltb_ℤ, leb_ℤ, ◌-ℤ◌}
use machine_controller.Base.Maps.{Map}
use machine_controller.MachineCore.Types.{IoChannel}
use text.Mathlib.Text.{◌==◌ as str_eq}

-- `getPortBaseOffset`
unfoldable pub port_base_offset : String → ℕ
port_base_offset port =
    if str_eq port "A"
    then 0
    else if str_eq port "B"
    then 8
    else if str_eq port "CL"
    then 16
    else if str_eq port "CH"
    then 20
    else 0

unfoldable pub port_of_pin : ℤ → String
port_of_pin pin =
    if ltb_ℤ pin (pos 8)
    then "A"
    else if ltb_ℤ pin (pos 16)
    then "B"
    else if ltb_ℤ pin (pos 20)
    then "CL"
    else if ltb_ℤ pin (pos 24)
    then "CH"
    else "Invalid"

-- `assignPortNames`
unfoldable pub assign_port_names : Map IoChannel → Map IoChannel
assign_port_names [] = []
assign_port_names ((name, ch) ∷ m) =
    (name, record ch { io_port = port_of_pin ch.pin }) ∷ assign_port_names m

-- The pin's place within its port; the card's ports are read and written 8 bits wide.
unfoldable pub pin_within_port : IoChannel → ℤ
pin_within_port ch = ch.pin -ℤ pos (port_base_offset ch.io_port)

abbrev pub in_port : ℤ → Bool
in_port p = leb_ℤ (pos 0) p && ltb_ℤ p (pos 8)

-- `(value >> p) & 1`
abbrev pub bit : ℕ → ℕ → ℕ
bit value p = value / 2 ^ p % 2

-- `~value` on 32 bits.
abbrev pub complement32 : ℕ → ℕ
complement32 value = 2 ^ 32 - 1 - value % 2 ^ 32

-- Every pin from 0 to 23 gets a port in which its place is one of the 8 bits.
pub port_of_pin-in_port :
    (n : ℕ)
    → n < 24
    → (port_base_offset (port_of_pin (pos n)) ≤ n)
      × (n < port_base_offset (port_of_pin (pos n)) + 8)
unfolding port_base_offset port_of_pin
port_of_pin-in_port n h =
    let P = λ (port : String). (port_base_offset port ≤ n) × (n < port_base_offset port + 8) in
    if_cases P (ltb_ℤ (pos n) (pos 8)) (λ e. ground arith)
      (λ a.
        if_cases P (ltb_ℤ (pos n) (pos 16)) (λ e. ground arith)
          (λ b.
            if_cases P (ltb_ℤ (pos n) (pos 20)) (λ e. ground arith)
              (λ c.
                if_cases P (ltb_ℤ (pos n) (pos 24)) (λ e. ground arith)
                  (λ d. absurd (ground arith)))))
