-- ===== src/Firmware/Tests/Sort.antt =====
-- The theorem on the stored rows, with insertion sort for `std::sort`.
use mathlib.Core.List.{Permᴰ}
use mathlib.Core.List.Permᴰ.{refl as same}
use machine_controller.Base.{◌≡◌, refl, List, [], ◌∷◌, arith, if◌then◌else◌, if_cases}
use machine_controller.Base.Int.{ℤ, pos, leb_ℤ, ◌≤ℤ◌}
use machine_controller.Firmware.State.{GlueRow}
use machine_controller.Firmware.Rows.{store_rows}
use machine_controller.Firmware.Rows.Merge.{covers, SortedFrom, IsSorted, IsDisjoint}
use machine_controller.Firmware.Rows.Sorting.{IsSort, store_rows-covers}

unfoldable insert_row : GlueRow → List GlueRow → List GlueRow
insert_row r [] = r ∷ []
insert_row r (x ∷ xs) = if leb_ℤ r.from x.from then r ∷ x ∷ xs else x ∷ insert_row r xs

unfoldable insertion_sort : List GlueRow → List GlueRow
insertion_sort [] = []
insertion_sort (r ∷ rs) = insert_row r (insertion_sort rs)

insert_row-Permᴰ : (r : GlueRow) (xs : List GlueRow) → Permᴰ (insert_row r xs) (r ∷ xs)
unfolding insert_row
insert_row-Permᴰ r [] = same (r ∷ [])
insert_row-Permᴰ r (x ∷ xs) =
    if_cases (λ ys. Permᴰ ys (r ∷ x ∷ xs)) (leb_ℤ r.from x.from) (λ _. same (r ∷ x ∷ xs))
      (λ _. Permᴰ.trans (Permᴰ.cons refl (insert_row-Permᴰ r xs)) (Permᴰ.swap refl refl))

insertion_sort-Permᴰ : (rs : List GlueRow) → Permᴰ (insertion_sort rs) rs
unfolding insertion_sort
insertion_sort-Permᴰ [] = Permᴰ.nil
insertion_sort-Permᴰ (r ∷ rs) =
    Permᴰ.trans (insert_row-Permᴰ r (insertion_sort rs)) (Permᴰ.cons refl (insertion_sort-Permᴰ rs))

insert_row-SortedFrom :
    (p : ℤ) (r : GlueRow) (xs : List GlueRow)
    → p ≤ℤ r.from
    → SortedFrom p xs
    → SortedFrom p (insert_row r xs)
unfolding insert_row
insert_row-SortedFrom p r [] h s = (h, tt)
insert_row-SortedFrom p r (x ∷ xs) h s =
    if_cases (λ ys. SortedFrom p ys) (leb_ℤ r.from x.from) (λ e. (h, (ground arith, s.1)))
      (λ e. (s.0, insert_row-SortedFrom x.from r xs (ground arith) s.1))

insert_row-IsSorted : (r : GlueRow) (xs : List GlueRow) → IsSorted xs → IsSorted (insert_row r xs)
unfolding insert_row
insert_row-IsSorted r [] s = tt
insert_row-IsSorted r (x ∷ xs) s =
    if_cases (λ ys. IsSorted ys) (leb_ℤ r.from x.from) (λ e. (ground arith, s))
      (λ e. insert_row-SortedFrom x.from r xs (ground arith) s)

insertion_sort-IsSorted : (rs : List GlueRow) → IsSorted (insertion_sort rs)
unfolding insertion_sort
insertion_sort-IsSorted [] = tt
insertion_sort-IsSorted (r ∷ rs) =
    insert_row-IsSorted r (insertion_sort rs) (insertion_sort-IsSorted rs)

insertion_sort-IsSort : IsSort insertion_sort
insertion_sort-IsSort = record {
  same = λ rs. ∣ insertion_sort-Permᴰ rs ∣₁;
  sorted = λ rs. insertion_sort-IsSorted rs;
}

-- Two rows that overlap, and one before them.
abbrev three_rows : List GlueRow
three_rows =
    record { from = pos 30; to = pos 50; space = pos 5 }
    ∷ record { from = pos 40; to = pos 60; space = pos 5 }
    ∷ record { from = pos 10; to = pos 20; space = pos 5 }
    ∷ []

store_rows-covers_example :
    IsDisjoint (store_rows insertion_sort three_rows)
    × ((p : ℤ) → covers (store_rows insertion_sort three_rows) p ≡ covers three_rows p)
store_rows-covers_example = store_rows-covers insertion_sort insertion_sort-IsSort three_rows
