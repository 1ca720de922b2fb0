-- ===== src/Firmware/Zones/Insert.antt =====
-- Which zones are pending after `calculateFiringZones`, and what narrowing does to far positions.
use mathlib.Core.List.{append-nil, append_assoc}
use machine_controller.Base.{
  ℕ, zero, suc, ◌^◌, ◌≤◌, ◌≡◌, refl, sym, ap, ◌∙◌, List, [], ◌∷◌, ◌++◌, map, arith, length, take,
  ltb, Bool-cases, inl, inr,
}
use machine_controller.Base.Int.{ℤ, pos, negsuc, ◌+ℤ◌, ◌<ℤ◌, ◌≤ℤ◌, narrow32, narrow32_wraps}
use machine_controller.Firmware.Ring.{ActiveZone, ZoneRing, ring_push, ring_pop}
use machine_controller.Firmware.Ring.Inv.{IsValid, ring_push-IsValid}
use machine_controller.Firmware.Ring.Refine.{contents, ring_push-contents, length-contents}
use machine_controller.Firmware.State.{GlueRow, Gun, GunInput}
use machine_controller.Firmware.Zones.{zone_of, push_rows}
use machine_controller.Firmware.Dots.{dots_head}

take_all : {A : Type 0} (n : ℕ) (xs : List A) → length xs ≤ n → take n xs ≡ xs
take_all zero [] h = refl
take_all zero (x ∷ xs) h = absurd (omega arith)
take_all (suc n) [] h = refl
take_all (suc n) (x ∷ xs) h = ap (◌∷◌ x) (take_all n xs (omega arith))

take-append_full :
    {A : Type 0} (n : ℕ) (xs ys zs : List A) → n ≤ length xs → take n (xs ++ ys) ≡ take n (xs ++ zs)
take-append_full zero xs ys zs h = refl
take-append_full (suc n) [] ys zs h = absurd (omega arith)
take-append_full (suc n) (x ∷ xs) ys zs h = ap (◌∷◌ x) (take-append_full n xs ys zs (omega arith))

-- After a gun's rows are inserted into a valid ring, the pending zones are the old ones followed by
-- a zone for each row, in order, cut off at 32; the ring stays valid.
pub push_rows-contents :
    (base : ℕ) (rows : List GlueRow) (r : ZoneRing)
    → IsValid r
    → IsValid (push_rows base rows r)
      × (contents (push_rows base rows r) ≡ take 32 (contents r ++ map (zone_of base) rows))
unfolding push_rows
push_rows-contents base [] r v = (
  v,
  rw append-nil (sym (take_all 32 (contents r) (omega (arith, length-contents r, v.count_in)))),
)
push_rows-contents base (row ∷ rows) r v =
    let z : ActiveZone = zone_of base row in
    let rest : List ActiveZone = map (zone_of base) rows in
    let ih = push_rows-contents base rows (ring_push r z).1 (ring_push-IsValid z v) in
    elim (Bool-cases (ltb (length (contents r)) 32)) [
      | inl e ↦ (
        ih.0,
        ih.1
            ∙ rw (ring_push-contents r z v, e)
                (ap (take 32) (append_assoc (contents r) (z ∷ []) rest)),
      )
      | inr e ↦ (
        ih.0,
        ih.1
            ∙ rw (ring_push-contents r z v, e)
                (take-append_full 32 (contents r) rest (z ∷ rest) (ground arith)),
      )
    ]

-- A zone that ends 2 ^ 31 pulses or more (and less than 2 ^ 32) from the origin of the position is
-- dropped in dots mode at every position, without a dot: its end is narrowed to a negative number.
pub far_zone_dropped :
    (base position : ℕ) (row : GlueRow) (s : GunInput) (g : Gun)
    → pos (2 ^ 31) ≤ℤ pos base +ℤ row.to
    → pos base +ℤ row.to <ℤ pos (2 ^ 32)
    → dots_head position s g (zone_of base row) ≡ record g { zones = (ring_pop g.zones).1 }
unfolding dots_head zone_of
far_zone_dropped base position row s g low high =
    ground (arith, narrow_negative (pos base +ℤ row.to) low high)
  where
    narrow_negative : (n : ℤ) → pos (2 ^ 31) ≤ℤ n → n <ℤ pos (2 ^ 32) → narrow32 n <ℤ pos 0
    narrow_negative (pos n) low high = narrow32_wraps n (omega arith) (omega arith)
    narrow_negative (negsuc n) low high = absurd (omega arith)
