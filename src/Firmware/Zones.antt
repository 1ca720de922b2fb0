-- ===== src/Firmware/Zones.antt =====
-- `calculateFiringZones`: the rows of a gun become pending zones, relative to the base position.
pub mod Insert
use machine_controller.Base.{ℕ, Bool, List, [], ◌∷◌, if◌then◌else◌}
use machine_controller.Base.Int.{pos, ◌+ℤ◌, narrow32}
use machine_controller.Firmware.Ring.{ActiveZone, ZoneRing, ring_push}
use machine_controller.Firmware.State.{GlueRow, Gun, for_guns}

-- The fields of a zone are `int`; the sums are 64 bits wide.
unfoldable pub zone_of : ℕ → GlueRow → ActiveZone
zone_of base row = record {
  from = narrow32 (pos base +ℤ row.from);
  to = narrow32 (pos base +ℤ row.to);
  next = narrow32 (pos base +ℤ row.from);
  space = row.space;
}

-- A zone for which the ring has no room is dropped.
unfoldable pub push_rows : ℕ → List GlueRow → ZoneRing → ZoneRing
push_rows base [] r = r
push_rows base (row ∷ rows) r = push_rows base rows (ring_push r (zone_of base row)).1

unfoldable pub gun_zones : ℕ → Gun → Gun
gun_zones base g = if g.enabled then record g { zones = push_rows base g.rows g.zones } else g

unfoldable pub zones_of_guns : ℕ → List Gun → List Gun
zones_of_guns base gs = for_guns (λ i. gun_zones base) 0 gs
