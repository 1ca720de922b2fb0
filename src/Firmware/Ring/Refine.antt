-- ===== src/Firmware/Ring/Refine.antt =====
-- A valid ring behaves as a queue of at most 32 zones, oldest first.
use machine_controller.Base.{
  ℕ, zero, suc, ◌+◌, ◌-◌, ◌%◌, ◌≤◌, ◌<◌, ◌≡◌, ◌≢◌, refl, ap, List, [], ◌∷◌, ◌++◌, Bool, true, false,
  Option, none, some, arith, length, get_or, set, ltb, ◌==◌, if◌then◌else◌, get_or-set_self,
  get_or-set_ne, get_elem?-eq-get_or,
}
use machine_controller.Base.Int.{pos}
use machine_controller.Firmware.Ring.{
  ActiveZone, ZoneRing, ring_push, ring_pop, ring_peek, ring_poke, ring_index,
}
use machine_controller.Firmware.Ring.Inv.{
  IsValid, ring_push-IsValid, ring_pop-IsValid, ring_poke-IsValid,
}

abbrev pub blank_zone : ActiveZone
blank_zone = record { from = pos 0; to = pos 0; next = pos 0; space = pos 0 }

-- The `n` zones from slot `h` on, going round at 32.
abbrev pub window : List ActiveZone → ℕ → ℕ → List ActiveZone
window buf h zero = []
window buf h (suc n) = get_or buf h blank_zone ∷ window buf ((h + 1) % 32) n

abbrev pub contents : ZoneRing → List ActiveZone
contents r = window r.buf r.head r.count

pub length-window : (buf : List ActiveZone) (h n : ℕ) → length (window buf h n) ≡ n
length-window buf h zero = refl
length-window buf h (suc n) = ap suc (length-window buf ((h + 1) % 32) n)

window_of_pos :
    (buf : List ActiveZone) (h n : ℕ)
    → n ≢ 0
    → window buf h n ≡ get_or buf h blank_zone ∷ window buf ((h + 1) % 32) (n - 1)
window_of_pos buf h zero p = absurd (p refl)
window_of_pos buf h (suc n) p = ap (λ k. window buf h (suc k)) (omega arith)

-- A write to a slot that the window does not reach leaves the window.
window-set_outside :
    (buf : List ActiveZone) (h i n : ℕ) (z : ActiveZone)
    → h < 32
    → i < 32
    → n ≤ (i + 32 - h) % 32
    → window (set buf i z) h n ≡ window buf h n
window-set_outside buf h i zero z hh hi far = refl
window-set_outside buf h i (suc n) z hh hi far =
    rw (get_or-set_ne buf i h z blank_zone (omega arith)) (
      ap (◌∷◌ (get_or buf h blank_zone))
        (window-set_outside buf ((h + 1) % 32) i n z (omega arith) (omega arith) (omega arith)))

window-set_first :
    (buf : List ActiveZone) (h n : ℕ) (z : ActiveZone)
    → length buf ≡ 32
    → h < 32
    → n ≤ 32
    → n ≢ 0
    → window (set buf h z) h n ≡ z ∷ window buf ((h + 1) % 32) (n - 1)
window-set_first buf h zero z hs hh hn p = absurd (p refl)
window-set_first buf h (suc n) z hs hh hn p =
    let e : suc n - 1 ≡ n = omega arith in
    rw (e, get_or-set_self buf h z blank_zone (omega arith))
      (ap (◌∷◌ z) (window-set_outside buf ((h + 1) % 32) h n z (omega arith) hh (omega arith)))

-- A write just past a window extends it.
window-set_end :
    (buf : List ActiveZone) (h n i : ℕ) (z : ActiveZone)
    → length buf ≡ 32
    → h < 32
    → n < 32
    → i ≡ (h + n) % 32
    → window (set buf i z) h (suc n) ≡ window buf h n ++ (z ∷ [])
window-set_end buf h zero i z hs hh hn e =
    let e' : i ≡ h = omega arith in rw (e', get_or-set_self buf h z blank_zone (omega arith))
window-set_end buf h (suc n) i z hs hh hn e =
    rw (get_or-set_ne buf i h z blank_zone (omega arith)) (
      ap (◌∷◌ (get_or buf h blank_zone))
        (window-set_end buf ((h + 1) % 32) n i z hs (omega arith) (omega arith) (omega arith)))

-- What the firmware does with a ring; a zone is read and changed only where one is pending.
pub data Op : Type 0 where
  push : ActiveZone → Op
  pop : Op
  poke : ActiveZone → Op

-- The value that a call returns, and the zone that the following look at the head sees.
abbrev pub Reply : Type 0
Reply = Bool × Option ActiveZone

unfoldable pub front : ZoneRing → Option ActiveZone
front r = if r.count == 0 then none else ring_peek r 0

unfoldable pub apply : ZoneRing → Op → Bool × ZoneRing
apply r (push z) = ring_push r z
apply r pop = ring_pop r
apply r (poke z) = if r.count == 0 then (false, r) else (true, ring_poke r 0 z)

unfoldable pub run : ZoneRing → List Op → List Reply
run r [] = []
run r (op ∷ ops) = let (ok, r') = apply r op in (ok, front r') ∷ run r' ops

-- The bounded queue that a ring stands for.
unfoldable pub queue_front : List ActiveZone → Option ActiveZone
queue_front [] = none
queue_front (z ∷ q) = some z

unfoldable pub queue_apply : List ActiveZone → Op → Bool × List ActiveZone
queue_apply q (push z) = if ltb (length q) 32 then (true, q ++ (z ∷ [])) else (false, q)
queue_apply [] pop = (false, [])
queue_apply (x ∷ q) pop = (true, q)
queue_apply [] (poke z) = (false, [])
queue_apply (x ∷ q) (poke z) = (true, z ∷ q)

unfoldable pub queue_run : List ActiveZone → List Op → List Reply
queue_run q [] = []
queue_run q (op ∷ ops) = let (ok, q') = queue_apply q op in (ok, queue_front q') ∷ queue_run q' ops

front_refines : (r : ZoneRing) → IsValid r → front r ≡ queue_front (contents r)
unfolding front queue_front ring_peek
front_refines r v = ground (
  arith,
  window_of_pos r.buf r.head r.count,
  get_elem?-eq-get_or r.buf (ring_index r 0) blank_zone,
  head_index r v,
)
  where
    head_index : (r : ZoneRing) → IsValid r → ring_index r 0 ≡ r.head
    head_index r v = omega arith

-- The head slot of a valid ring can be read.
pub ring_peek-ne-none : (r : ZoneRing) → IsValid r → ring_peek r 0 ≢ none
unfolding ring_peek
ring_peek-ne-none r v e = ground (arith, get_elem?-eq-get_or r.buf (ring_index r 0) blank_zone)

apply-IsValid : {r : ZoneRing} (op : Op) → IsValid r → IsValid (apply r op).1
unfolding apply
apply-IsValid (push z) v = ring_push-IsValid z v
apply-IsValid pop v = ring_pop-IsValid v
apply-IsValid {r} (poke z) v = ground (arith, ring_poke-IsValid 0 z v)

apply_refines :
    (r : ZoneRing) (op : Op)
    → IsValid r
    → let (ok, r') = apply r op in (ok, contents r') ≡ queue_apply (contents r) op
unfolding apply queue_apply ring_push ring_pop ring_poke
apply_refines r (push z) v =
    ground (arith, length-window r.buf r.head r.count, window-set_end r.buf r.head r.count r.tail z)
apply_refines r pop v = ground (arith, window_of_pos r.buf r.head r.count)
apply_refines r (poke z) v = ground (
  arith,
  window_of_pos r.buf r.head r.count,
  window-set_first r.buf r.head r.count z,
  head_index r v,
)
  where
    head_index : (r : ZoneRing) → IsValid r → ring_index r 0 ≡ r.head
    head_index r v = omega arith

pub ring_push-contents :
    (r : ZoneRing) (z : ActiveZone)
    → IsValid r
    → contents (ring_push r z).1
      ≡ (if ltb (length (contents r)) 32 then contents r ++ (z ∷ []) else contents r)
unfolding apply queue_apply
ring_push-contents r z v = ground (arith, apply_refines r (push z) v)

pub length-contents : (r : ZoneRing) → length (contents r) ≡ r.count
length-contents r = length-window r.buf r.head r.count

-- On a ring whose buffer has 32 slots, whose head and count are in range and whose tail lies
-- `count` slots behind the head, any sequence of `ring_push`, `ring_pop` and writes through
-- `ring_peek(r, 0)` returns what the queue of its pending zones returns that holds at most 32, and
-- after each call the head zone is the front of that queue.
pub run_refines :
    (ops : List Op) (r : ZoneRing) → IsValid r → run r ops ≡ queue_run (contents r) ops
unfolding run queue_run
run_refines [] r v = refl
run_refines (op ∷ ops) r v = rw (
  run_refines ops (apply r op).1 (apply-IsValid op v),
  front_refines (apply r op).1 (apply-IsValid op v),
  ← apply_refines r op v,
)
