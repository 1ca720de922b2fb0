-- ===== src/Firmware/Ring/Inv.antt =====
-- The invariant of a zone ring: indices in range, the tail `count` places behind the head.
use machine_controller.Base.{ℕ, ◌+◌, ◌%◌, ◌≤◌, ◌<◌, ◌≡◌, arith, length, length-set}
use machine_controller.Firmware.Ring.{
  ActiveZone, ZoneRing, ring_push, ring_pop, ring_poke, ring_clear, ring_index,
}

pub record IsValid (r : ZoneRing) : Type 0 where
  pub storage : length r.buf ≡ 32
  pub head_in : r.head < 32
  pub count_in : r.count ≤ 32
  pub tail_at : r.tail ≡ (r.head + r.count) % 32

pub ring_push-IsValid : {r : ZoneRing} (z : ActiveZone) → IsValid r → IsValid (ring_push r z).1
unfolding ring_push
ring_push-IsValid {r} z v = ground (arith, length-set r.buf r.tail z)

pub ring_pop-IsValid : {r : ZoneRing} → IsValid r → IsValid (ring_pop r).1
unfolding ring_pop
ring_pop-IsValid v = ground arith

pub ring_poke-IsValid :
    {r : ZoneRing} (i : ℕ) (z : ActiveZone) → IsValid r → IsValid (ring_poke r i z)
unfolding ring_poke
ring_poke-IsValid {r} i z v = ground (arith, length-set r.buf (ring_index r i) z)

pub ring_clear-IsValid : {r : ZoneRing} → IsValid r → IsValid (ring_clear r)
unfolding ring_clear
ring_clear-IsValid v = ground arith
