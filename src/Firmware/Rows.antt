-- ===== src/Firmware/Rows.antt =====
-- The rows of a gun as `handleConfig` stores them: sorted by their start and merged where they touch.
pub mod Merge
pub mod Sorting
use machine_controller.Base.{List, [], ◌∷◌, if◌then◌else◌}
use machine_controller.Base.Int.{leb_ℤ, max_ℤ}
use machine_controller.Firmware.State.{GlueRow}

-- The body of the merging loop: `r` is joined to the last row, or becomes the last row.
unfoldable pub add_row : List GlueRow → GlueRow → List GlueRow
add_row [] r = r ∷ []
add_row (x ∷ []) r =
    if leb_ℤ r.from x.to then record x { to = max_ℤ x.to r.to } ∷ [] else x ∷ r ∷ []
add_row (x ∷ y ∷ ys) r = x ∷ add_row (y ∷ ys) r

unfoldable pub add_rows : List GlueRow → List GlueRow → List GlueRow
add_rows rows [] = rows
add_rows rows (r ∷ rs) = add_rows (add_row rows r) rs

-- `std::sort` is a parameter.
unfoldable pub store_rows : (List GlueRow → List GlueRow) → List GlueRow → List GlueRow
store_rows sort rows = add_rows [] (sort rows)
