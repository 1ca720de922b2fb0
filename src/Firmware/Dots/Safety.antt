-- ===== src/Firmware/Dots/Safety.antt =====
-- When a gun fires in dots mode, and where its drops fall.
use machine_controller.Base.{
  ℕ, ◌+◌, ◌-◌, ◌*◌, ◌/◌, ◌^◌, ◌≤◌, ◌<◌, ◌≡◌, ◌≢◌, ◌⊎◌, inl, inr, true, false, some, arith,
  Option-cases, if◌then◌else◌,
}
use machine_controller.Base.Int.{
  ℤ, pos, negsuc, pos_part, ltb_ℤ, ◌+ℤ◌, ◌-ℤ◌, ◌≤ℤ◌, ◌<ℤ◌, narrow32, narrow32_id, +ℤ_parts,
  -ℤ_parts,
}
use machine_controller.Firmware.Ring.{ActiveZone, ring_peek}
use machine_controller.Firmware.State.{Gun, GunInput, in_deadband}
use machine_controller.Firmware.Dots.{
  drop_steps, advance_next, dots_in_zone, dots_head, dots_pending, dots_fire, dots_gun,
}

-- The output is on after a pass exactly when a dot is in flight after it, and then the gun is
-- enabled and the measured current is below the threshold.
pub dots_gun-pin :
    (position : ℕ) (threshold : ℤ) (s : GunInput) (g : Gun)
    → let g' = dots_gun position threshold s g in
      (g'.pin ≡ g'.gun_state)
      × (g'.pin ≡ true → (g.enabled ≡ true) × (pos s.adc_second <ℤ threshold))
unfolding dots_fire dots_gun
dots_gun-pin position threshold s g = ground arith

-- A dot that is in flight after a pass and was not before it.
abbrev pub Starts : ℕ → GunInput → Gun → Type 0
Starts position s g =
    (z : ActiveZone) × (ring_peek g.zones 0 ≡ some z)
    × (g.zones.count ≢ 0)
    × (z.from ≤ℤ pos position)
    × (pos position ≤ℤ z.to)
    × ((z.space ≤ℤ pos 0) ⊎ (z.next ≤ℤ pos position))
    × (in_deadband s.adc_first ≡ true)

dots_head-Starts :
    (position : ℕ) (s : GunInput) (g : Gun) (z : ActiveZone)
    → g.gun_state ≡ false
    → (dots_head position s g z).gun_state ≡ true
    → (z.from ≤ℤ pos position)
      × (pos position ≤ℤ z.to)
      × ((z.space ≤ℤ pos 0) ⊎ (z.next ≤ℤ pos position))
      × (in_deadband s.adc_first ≡ true)
unfolding dots_head dots_in_zone
dots_head-Starts position s g z off on = ground arith

dots_pending-Starts :
    (position : ℕ) (s : GunInput) (g : Gun)
    → g.gun_state ≡ false
    → (dots_pending position s g).gun_state ≡ true
    → Starts position s g
unfolding dots_pending
dots_pending-Starts position s g off on = elim (Option-cases (ring_peek g.zones 0)) [
  | inl e ↦ absurd (ground arith)
  | inr (z, e) ↦
      let h : (z.from ≤ℤ pos position)
          × (pos position ≤ℤ z.to)
          × ((z.space ≤ℤ pos 0) ⊎ (z.next ≤ℤ pos position))
          × (in_deadband s.adc_first ≡ true) =
        ground (arith, dots_head-Starts position s g z off) in
      (z, e, ground arith, h.0, h.1, h.2, h.3)
]

-- A gun that fires after a pass and had no dot in flight before it started one in this pass: a zone
-- was pending, the position lies between the start and the end of the head zone, a drop was due (or
-- the zone is continuous), and the first sample of the current was within the deadband.
pub dots_gun-Starts :
    (position : ℕ) (threshold : ℤ) (s : GunInput) (g : Gun)
    → g.gun_state ≡ false
    → (dots_gun position threshold s g).pin ≡ true
    → Starts position s g
unfolding dots_gun dots_fire
dots_gun-Starts position threshold s g off on = dots_pending-Starts position s g off (ground arith)

div_bounds : (d s : ℕ) → 0 < s → (d / s * s ≤ d) × (d < (d / s + 1) * s)
div_bounds d s h = grind arith

-- No 32-bit overflow near the end of the zone.
pub record Fits (z : ActiveZone) : Type 0 where
  pub next_low : negsuc (2 ^ 31 - 1) ≤ℤ z.next
  pub end_high : z.to +ℤ z.space <ℤ pos (2 ^ 31)
  pub spaced : pos 0 <ℤ z.space

drop_bounds :
    (position : ℕ) (n s : ℤ)
    → n ≤ℤ pos position
    → pos 0 <ℤ s
    → let k = drop_steps (pos position -ℤ n) s in
      (pos position <ℤ n +ℤ pos (k * pos_part s)) × (n +ℤ pos (k * pos_part s) ≤ℤ pos position +ℤ s)
drop_bounds position n (negsuc s) h k = absurd (omega arith)
drop_bounds position n (pos s) h k =
    let d : ℕ = pos_part (pos position -ℤ n) in
    ground (
      arith,
      div_bounds d s,
      -ℤ_parts (pos position) n,
      +ℤ_parts n (pos ((d / s + 1) * s)),
      +ℤ_parts (pos position) (pos s),
    )

-- In a zone with a positive spacing and away from the limits of `int`, a position between the due
-- position and the zone's end moves the due position beyond itself: to the next point of the grid
-- that the due position and the spacing span, unless that point is past the zone's end, and then
-- behind the end.
pub advance_next-grid :
    (position : ℕ) (z : ActiveZone)
    → Fits z
    → z.next ≤ℤ pos position
    → pos position ≤ℤ z.to
    → let z' = advance_next position z in
      (k : ℕ) × (pos position <ℤ z.next +ℤ pos (k * pos_part z.space))
      × (z.next +ℤ pos (k * pos_part z.space) ≤ℤ pos position +ℤ z.space)
      × (z'.next ≡ (
          if ltb_ℤ z.to (z.next +ℤ pos (k * pos_part z.space))
          then z.to +ℤ pos 1
          else z.next +ℤ pos (k * pos_part z.space)))
unfolding advance_next
advance_next-grid position z fits due before =
    let k : ℕ = drop_steps (pos position -ℤ z.next) z.space in
    let n : ℤ = z.next +ℤ pos (k * pos_part z.space) in
    let b : (pos position <ℤ n) × (n ≤ℤ pos position +ℤ z.space) =
      drop_bounds position z.next z.space due fits.spaced in
    let same : narrow32 n ≡ n =
      narrow32_id n
        (omega (arith, fits.next_low, b.0, +ℤ_parts z.next (pos (k * pos_part z.space))))
        (omega (
          arith,
          fits.end_high,
          fits.spaced,
          b.1,
          +ℤ_parts z.to z.space,
          +ℤ_parts (pos position) z.space,
        )) in
    let end_same : narrow32 (z.to +ℤ pos 1) ≡ z.to +ℤ pos 1 =
      narrow32_id (z.to +ℤ pos 1) (omega (arith, +ℤ_parts z.to (pos 1)))
        (omega (arith, fits.end_high, fits.spaced, +ℤ_parts z.to z.space, +ℤ_parts z.to (pos 1))) in
    (k, b.0, b.1, rw (same, end_same))
