-- ===== src/MachineCore/Shift.antt =====
-- What shifting a port's messages does to each cell.
use machine_controller.Base.{
  ℕ, zero, suc, ◌+◌, ◌-◌, ◌<◌, ◌≡◌, refl, ap, ◌∙◌, List, [], ◌∷◌, Bytes, arith, ltb, leb, length,
  take, replicate, get_or, set, length-set, length-append, length-take, length-replicate,
  get_or-set_self, get_or-set_ne, if◌then◌else◌, Bool-cases, inl, inr, ◌&&◌, sym, ltb→lt,
}
use native.Mathlib.Decide.{ℕ_discrete}
use machine_controller.MachineCore.Store.{resize, fit, move_cells, clear_cells, shift_cells}

pub length-resize : (n : ℕ) (cells : List Bytes) → length (resize n cells) ≡ n
unfolding resize
length-resize n cells = omega (
  arith,
  length-append (take n cells) (replicate (n - length cells) []),
  length-take {0} n cells,
  length-replicate {0} {A = Bytes} (n - length cells) [],
)

pub length-fit : (n : ℕ) (cells : List Bytes) → length (fit n cells) ≡ n
length-fit n cells = ground (arith, length-resize n cells)

length-move_cells :
    (by capacity i : ℕ) (cells : List Bytes)
    → length (move_cells by capacity i cells) ≡ length cells
unfolding move_cells
length-move_cells by capacity zero cells = refl
length-move_cells by capacity (suc i) cells =
    length-move_cells by capacity i _
    ∙ ground (arith, length-set cells (i + by) (get_or cells i []))

length-clear_cells : (n : ℕ) (cells : List Bytes) → length (clear_cells n cells) ≡ length cells
unfolding clear_cells
length-clear_cells zero cells = refl
length-clear_cells (suc n) [] = refl
length-clear_cells (suc n) (x ∷ xs) = ap suc (length-clear_cells n xs)

get_or-clear_cells :
    (n j : ℕ) (cells : List Bytes)
    → get_or (clear_cells n cells) j [] ≡ (if ltb j n then [] else get_or cells j [])
unfolding clear_cells
get_or-clear_cells zero j cells = ground arith
get_or-clear_cells (suc n) j [] = ground arith
get_or-clear_cells (suc n) zero (x ∷ xs) = ground arith
get_or-clear_cells (suc n) (suc j) (x ∷ xs) = get_or-clear_cells n j xs ∙ ground arith

-- One round of the move: what cell `j` holds after the later rounds on the changed cells, in terms of
-- the cells before it.
move_round :
    (by capacity i j : ℕ) (cells : List Bytes) (r : Bytes)
    → let moved = set cells (i + by) (get_or cells i []) in
      0 < by
      → length cells ≡ capacity
      → i + by < capacity
      → r ≡ (if leb by j && ltb j (i + by) then get_or moved (j - by) [] else get_or moved j [])
      → r ≡ (if leb by j && ltb j (suc i + by) then get_or cells (j - by) [] else get_or cells j [])
move_round by capacity i j cells r pos_by len inside e = elim (ℕ_discrete j (i + by)) [
  | yes h ↦
      let v : Bytes = get_or cells i [] in
      let back : j - by ≡ i = omega arith in
      let here : get_or (set cells (i + by) v) j [] ≡ v =
        rw h (get_or-set_self cells (i + by) v [] (omega arith)) in
      e ∙ rw back (ground (arith, here))
  | no h ↦
      let v : Bytes = get_or cells i [] in
      e
      ∙ ground (
        arith,
        get_or-set_ne cells (i + by) j v [] (λ q. h (sym q)),
        get_or-set_ne cells (i + by) (j - by) v [],
      )
]

get_or-move_cells :
    (by capacity i j : ℕ) (cells : List Bytes)
    → 0 < by
    → length cells ≡ capacity
    → j < capacity
    → get_or (move_cells by capacity i cells) j []
      ≡ (if leb by j && ltb j (i + by) then get_or cells (j - by) [] else get_or cells j [])
unfolding move_cells
get_or-move_cells by capacity zero j cells pos_by len inside = ground arith
get_or-move_cells by capacity (suc i) j cells pos_by len inside =
    let v : Bytes = get_or cells i [] in
    elim (Bool-cases (ltb (i + by) capacity)) [
      | inl e ↦ rw e (
          move_round by capacity i j cells _ pos_by len (ltb→lt (i + by) capacity e) (
            get_or-move_cells by capacity i j (set cells (i + by) v) pos_by
              (length-set cells (i + by) v ∙ len) inside))
      | inr e ↦ rw e (get_or-move_cells by capacity i j cells pos_by len inside ∙ ground arith)
    ]

-- Shifting a port's cells by `by` places drops the last ones: cell `j` holds what cell `j - by` held,
-- and the first cells are empty. The number of cells stays `capacity`.
pub shift_cells_lem :
    (by capacity j : ℕ) (cells : List Bytes)
    → 0 < by
    → length cells ≡ capacity
    → j < capacity
    → (length (shift_cells by capacity cells) ≡ capacity)
      × (get_or (shift_cells by capacity cells) j []
          ≡ (if ltb j by then [] else get_or cells (j - by) []))
unfolding shift_cells
shift_cells_lem by capacity j cells pos_by len inside =
    let steps : ℕ = if ltb capacity by then capacity else by in
    let same : fit capacity cells ≡ cells = ground arith in
    (
      length-clear_cells steps _
          ∙ length-move_cells steps capacity capacity _
          ∙ length-fit capacity cells,
      get_or-clear_cells steps j _
          ∙ ground (
            arith,
            same,
            get_or-move_cells steps capacity capacity j cells (ground arith) len inside,
          ),
    )

pub length-shift_cells :
    (by capacity : ℕ) (cells : List Bytes) → length (shift_cells by capacity cells) ≡ capacity
unfolding shift_cells
length-shift_cells by capacity cells =
    let steps : ℕ = if ltb capacity by then capacity else by in
    length-clear_cells steps _
    ∙ length-move_cells steps capacity capacity _
    ∙ length-fit capacity cells
