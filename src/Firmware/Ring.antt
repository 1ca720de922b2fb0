-- ===== src/Firmware/Ring.antt =====
-- The ring of pending zones of one gun: `ZoneRing` and the `ring_` helpers of GlueController.cpp.
-- `head`, `tail` and `count` are bytes; their casts are written out.
pub mod Inv
pub mod Refine
use machine_controller.Base.{
  ℕ, ◌+◌, ◌-◌, ◌%◌, Bool, true, false, List, Option, leb, ◌==◌, if◌then◌else◌, get_elem?, set,
}
use machine_controller.Base.Int.{ℤ}

abbrev pub max_zones_per_gun : ℕ
max_zones_per_gun = 32

-- Positions in pulses; `next` is where the next drop is due.
pub record ActiveZone : Type 0 where
  pub from : ℤ
  pub to : ℤ
  pub next : ℤ
  pub space : ℤ

pub record ZoneRing : Type 0 where
  pub buf : List ActiveZone
  pub head : ℕ
  pub tail : ℕ
  pub count : ℕ

-- The value of a `uint8_t` cast.
abbrev pub byte : ℕ → ℕ
byte n = n % 256

unfoldable pub ring_push : ZoneRing → ActiveZone → Bool × ZoneRing
ring_push r z = if leb max_zones_per_gun r.count then (false, r) else (
  true,
  record r {
    buf = set r.buf r.tail z;
    tail = byte ((r.tail + 1) % max_zones_per_gun);
    count = byte (r.count + 1);
  },
)

unfoldable pub ring_pop : ZoneRing → Bool × ZoneRing
ring_pop r =
    if r.count == 0
    then (false, r)
    else (true, record r { head = byte ((r.head + 1) % max_zones_per_gun); count = r.count - 1 })

-- The slot of the zone that stands `i` places behind the head.
abbrev pub ring_index : ZoneRing → ℕ → ℕ
ring_index r i = byte ((r.head + i) % max_zones_per_gun)

-- `none` is an access outside of the buffer.
unfoldable pub ring_peek : ZoneRing → ℕ → Option ActiveZone
ring_peek r i = get_elem? r.buf (ring_index r i)

-- A write through the reference that `ring_peek` returns.
unfoldable pub ring_poke : ZoneRing → ℕ → ActiveZone → ZoneRing
ring_poke r i z = record r { buf = set r.buf (ring_index r i) z }

-- `head = tail = count = 0`
pub ring_clear : ZoneRing → ZoneRing
ring_clear r = record r { head = 0; tail = 0; count = 0 }
