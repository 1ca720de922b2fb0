-- ===== src/Firmware/Dots.antt =====
-- Dots mode of `updateGuns`: one pass over a gun.
pub mod Safety
use machine_controller.Base.{
  ℕ, ◌+◌, ◌-◌, ◌*◌, ◌/◌, Bool, true, false, List, Option, none, some, ltb, leb, ◌==◌, ◌||◌,
  if◌then◌else◌,
}
use machine_controller.Base.Int.{ℤ, pos, negsuc, pos_part, ltb_ℤ, leb_ℤ, ◌+ℤ◌, ◌-ℤ◌, narrow32}
use machine_controller.Firmware.Ring.{ActiveZone, ring_pop, ring_peek, ring_poke}
use machine_controller.Firmware.State.{Gun, GunInput, in_deadband, set_gun}

-- Starts a dot unless the current of the previous one still flows.
abbrev pub initiate : GunInput → Gun → Gun
initiate s g = if in_deadband s.adc_first then record g { gun_state = true } else g

-- `diff / space + 1`, for a difference that is not negative and a positive space.
abbrev pub drop_steps : ℤ → ℤ → ℕ
drop_steps diff space = if leb_ℤ (pos 0) diff then pos_part diff / pos_part space + 1 else 1

-- The position after which `position` is due next; past the zone's end it is parked behind the end.
unfoldable pub advance_next : ℕ → ActiveZone → ActiveZone
advance_next position z =
    let next' : ℤ =
      narrow32 (z.next +ℤ pos (drop_steps (pos position -ℤ z.next) z.space * pos_part z.space)) in
    record z { next = if ltb_ℤ z.to next' then narrow32 (z.to +ℤ pos 1) else next' }

-- The head zone, once the position has come to its start and is not past its end.
unfoldable pub dots_in_zone : ℕ → GunInput → Gun → ActiveZone → Gun
dots_in_zone position s g z =
    if ltb_ℤ (pos 0) z.space
    then (if leb_ℤ z.next (pos position)
        then record (initiate s g) { zones = ring_poke g.zones 0 (advance_next position z) }
        else g)
    else initiate s g

unfoldable pub dots_head : ℕ → GunInput → Gun → ActiveZone → Gun
dots_head position s g z =
    if ltb_ℤ z.to (pos position)
    then record g { zones = (ring_pop g.zones).1 }
    else if leb_ℤ z.from (pos position)
    then dots_in_zone position s g z
    else g

unfoldable pub dots_pending : ℕ → GunInput → Gun → Gun
dots_pending position s g =
    if g.zones.count == 0
    then g
    else elim (ring_peek g.zones 0) [ none ↦ g | some z ↦ dots_head position s g z ]

-- Fires until the current reaches the threshold.
unfoldable pub dots_fire : ℤ → GunInput → Gun → Gun
dots_fire threshold s g =
    if g.gun_state
    then (if leb_ℤ threshold (pos s.adc_second)
        then record g { pin = false; gun_state = false }
        else set_gun true g)
    else set_gun false g

unfoldable pub dots_gun : ℕ → ℤ → GunInput → Gun → Gun
dots_gun position threshold s g =
    if g.enabled
    then dots_fire threshold s (dots_pending position s g)
    else record g { gun_state = false; pin = false }
