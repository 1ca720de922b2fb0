-- ===== src/Firmware/Rows/Merge.antt =====
-- What merging sorted rows keeps and achieves.
use machine_controller.Base.{◌≡◌, refl, ◌∙◌, List, [], ◌∷◌, Bool, false, ◌&&◌, ◌||◌, arith}
use machine_controller.Base.Int.{ℤ, leb_ℤ, max_ℤ, ◌≤ℤ◌, ◌<ℤ◌}
use machine_controller.Firmware.State.{GlueRow}
use machine_controller.Firmware.Rows.{add_row, add_rows}

-- Does position `p` lie in the row?
abbrev pub within : ℤ → GlueRow → Bool
within p r = leb_ℤ r.from p && leb_ℤ p r.to

-- Does position `p` lie in one of the rows?
unfoldable pub covers : List GlueRow → ℤ → Bool
covers [] p = false
covers (r ∷ rs) p = within p r || covers rs p

-- All rows start at or after `p`, in order of their starts.
abbrev pub SortedFrom : ℤ → List GlueRow → Type 0
SortedFrom p [] = Unit {0}
SortedFrom p (r ∷ rs) = (p ≤ℤ r.from) × SortedFrom r.from rs

abbrev pub IsSorted : List GlueRow → Type 0
IsSorted [] = Unit {0}
IsSorted (r ∷ rs) = SortedFrom r.from rs

-- Each row ends before the next one starts.
abbrev pub IsDisjoint : List GlueRow → Type 0
IsDisjoint [] = Unit {0}
IsDisjoint (r ∷ []) = Unit {0}
IsDisjoint (r ∷ s ∷ rs) = (r.to <ℤ s.from) × IsDisjoint (s ∷ rs)

-- The last row starts at or before `p`.
abbrev LastBefore : ℤ → List GlueRow → Type 0
LastBefore p [] = Unit {0}
LastBefore p (r ∷ []) = r.from ≤ℤ p
LastBefore p (r ∷ s ∷ rs) = LastBefore p (s ∷ rs)

or_assoc : (a b c : Bool) → ((a || b) || c) ≡ (a || (b || c))
or_assoc a b c = ground arith

merge_pair :
    (x r : GlueRow) (p : ℤ)
    → x.from ≤ℤ r.from
    → r.from ≤ℤ x.to
    → within p (record x { to = max_ℤ x.to r.to }) ≡ (within p x || within p r)
merge_pair x r p h k = ground arith

covers-add_row :
    (rows : List GlueRow) (r : GlueRow) (p : ℤ)
    → LastBefore r.from rows
    → covers (add_row rows r) p ≡ (covers rows p || within p r)
unfolding covers add_row
covers-add_row [] r p h = ground arith
covers-add_row (x ∷ []) r p h = ground (arith, merge_pair x r p)
covers-add_row (x ∷ y ∷ ys) r p h = ground (arith, covers-add_row (y ∷ ys) r p h)

add_row-LastBefore :
    (rows : List GlueRow) (r : GlueRow) (q : ℤ)
    → LastBefore r.from rows
    → r.from ≤ℤ q
    → LastBefore q (add_row rows r)
unfolding add_row
add_row-LastBefore [] r q h k = k
add_row-LastBefore (x ∷ []) r q h k = ground arith
add_row-LastBefore (x ∷ y ∷ []) r q h k = ground (arith, add_row-LastBefore (y ∷ []) r q h k)
add_row-LastBefore (x ∷ y ∷ z ∷ zs) r q h k = add_row-LastBefore (y ∷ z ∷ zs) r q h k

add_row-IsDisjoint :
    (rows : List GlueRow) (r : GlueRow) → IsDisjoint rows → IsDisjoint (add_row rows r)
unfolding add_row
add_row-IsDisjoint [] r h = tt
add_row-IsDisjoint (x ∷ []) r h = ground arith
add_row-IsDisjoint (x ∷ y ∷ []) r h = ground arith
add_row-IsDisjoint (x ∷ y ∷ z ∷ zs) r h = (h.0, add_row-IsDisjoint (y ∷ z ∷ zs) r h.1)

LastBefore-mono : (rows : List GlueRow) (p q : ℤ) → p ≤ℤ q → LastBefore p rows → LastBefore q rows
LastBefore-mono [] p q h k = tt
LastBefore-mono (x ∷ []) p q h k = omega arith
LastBefore-mono (x ∷ y ∷ ys) p q h k = LastBefore-mono (y ∷ ys) p q h k

covers-add_rows :
    (rows rs : List GlueRow) (b p : ℤ)
    → LastBefore b rows
    → SortedFrom b rs
    → covers (add_rows rows rs) p ≡ (covers rows p || covers rs p)
unfolding covers add_rows
covers-add_rows rows [] b p h s = ground arith
covers-add_rows rows (r ∷ rs) b p h s =
    covers-add_rows (add_row rows r) rs r.from p
      (add_row-LastBefore rows r r.from (LastBefore-mono rows b r.from s.0 h) (omega arith)) s.1
    ∙ ground (arith, covers-add_row rows r p (LastBefore-mono rows b r.from s.0 h))

-- Merging rows that are sorted by their starts covers exactly the positions that they cover.
pub merge_covers :
    (rs : List GlueRow) (p : ℤ) → IsSorted rs → covers (add_rows [] rs) p ≡ covers rs p
unfolding add_rows add_row covers
merge_covers [] p h = refl
merge_covers (r ∷ rs) p h = covers-add_rows (r ∷ []) rs r.from p (omega arith) h ∙ ground arith

pub add_rows-IsDisjoint : (rows rs : List GlueRow) → IsDisjoint rows → IsDisjoint (add_rows rows rs)
unfolding add_rows
add_rows-IsDisjoint rows [] h = h
add_rows-IsDisjoint rows (r ∷ rs) h =
    add_rows-IsDisjoint (add_row rows r) rs (add_row-IsDisjoint rows r h)
