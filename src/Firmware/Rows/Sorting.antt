-- ===== src/Firmware/Rows/Sorting.antt =====
-- `std::sort` by `from` as the source relies on it, and the stored rows of a gun.
use mathlib.Core.Path.{ap₂}
use mathlib.Core.Bool.{Bool-set}
use mathlib.Core.List.{Perm, Permᴰ}
use mathlib.Core.Logic.{∥∥₁_elim}
use machine_controller.Base.{◌≡◌, refl, ◌∙◌, List, [], Bool, ◌||◌, arith}
use machine_controller.Base.Int.{ℤ}
use machine_controller.Firmware.State.{GlueRow}
use machine_controller.Firmware.Rows.{store_rows}
use machine_controller.Firmware.Rows.Merge.{
  within, covers, IsSorted, IsDisjoint, merge_covers, add_rows-IsDisjoint,
}

-- What `std::sort` documents: the same elements, in order.
pub record IsSort (sort : List GlueRow → List GlueRow) : Type 0 where
  pub same : (rows : List GlueRow) → Perm (sort rows) rows
  pub sorted : (rows : List GlueRow) → IsSorted (sort rows)

or_swap : (a b c : Bool) → (a || (b || c)) ≡ (b || (a || c))
or_swap a b c = ground arith

covers-Permᴰ : {xs ys : List GlueRow} (p : ℤ) → Permᴰ xs ys → covers xs p ≡ covers ys p
unfolding covers
covers-Permᴰ p Permᴰ.nil = refl
covers-Permᴰ p (Permᴰ.cons e d) = ap₂ (λ x b. within p x || b) e (covers-Permᴰ p d)
covers-Permᴰ p (Permᴰ.swap {a' = x} {b' = y} {l = l} e f) =
    rw (e, f) (or_swap (within p y) (within p x) (covers l p))
covers-Permᴰ p (Permᴰ.trans d e) = covers-Permᴰ p d ∙ covers-Permᴰ p e

covers-Perm : {xs ys : List GlueRow} (p : ℤ) → Perm xs ys → covers xs p ≡ covers ys p
covers-Perm p d = ∥∥₁_elim d (Bool-set _ _) (covers-Permᴰ p)

-- If `std::sort` returns the rows in the order of their starts, the stored rows cover exactly the
-- positions that the rows of the message cover, and each ends before the next starts.
pub store_rows-covers :
    (sort : List GlueRow → List GlueRow)
    → IsSort sort
    → (rows : List GlueRow)
    → IsDisjoint (store_rows sort rows)
      × ((p : ℤ) → covers (store_rows sort rows) p ≡ covers rows p)
unfolding store_rows
store_rows-covers sort h rows = (
  add_rows-IsDisjoint [] (sort rows) tt,
  λ p. merge_covers (sort rows) p (h.sorted rows) ∙ covers-Perm p (h.same rows),
)
