-- ===== src/MachineCore/Store.antt =====
-- The message store of the machine core: one vector of `capacity` cells for each port.
use machine_controller.Base.{
  ℕ, zero, suc, ◌+◌, ◌-◌, List, [], ◌∷◌, ◌++◌, Bytes, String, none, some, ltb, ◌==◌, length, take,
  replicate, get_or, set, if◌then◌else◌,
}
use machine_controller.Base.Maps.{Map, lookup, insert}
use machine_controller.MachineCore.State.{DefaultMachineCore}

-- `vec.resize(n)`
unfoldable pub resize : ℕ → List Bytes → List Bytes
resize n cells = take n cells ++ replicate (n - length cells) []

unfoldable pub resize_all : ℕ → Map (List Bytes) → Map (List Bytes)
resize_all n [] = []
resize_all n ((port, cells) ∷ m) = (port, resize n cells) ∷ resize_all n m

unfoldable pub set_store_capacity : ℕ → DefaultMachineCore → DefaultMachineCore
set_store_capacity n c = record c { capacity = n; store = resize_all n c.store }

unfoldable pub barcode_store_snapshot : DefaultMachineCore → Map (List Bytes)
barcode_store_snapshot c = if c.capacity == 0 then c.store else resize_all c.capacity c.store

-- The vector of a port; `store_[port]` makes an empty one.
unfoldable pub cells_of : String → Map (List Bytes) → List Bytes
cells_of port m = elim (lookup port m) [ none ↦ [] | some cells ↦ cells ]

abbrev pub fit : ℕ → List Bytes → List Bytes
fit n cells = if length cells == n then cells else resize n cells

unfoldable pub ensure_port_capacity : String → DefaultMachineCore → DefaultMachineCore
ensure_port_capacity port c =
    if c.capacity == 0
    then c
    else record c { store = insert port (fit c.capacity (cells_of port c.store)) c.store }

-- `for (size_t i = n; i-- > 0; )`: cell `i` moves to `i + by` if that is a cell.
unfoldable pub move_cells : ℕ → ℕ → ℕ → List Bytes → List Bytes
move_cells by capacity zero cells = cells
move_cells by capacity (suc i) cells =
    move_cells by capacity i
      (if ltb (i + by) capacity then set cells (i + by) (get_or cells i []) else cells)

-- The first `n` cells are cleared.
unfoldable pub clear_cells : ℕ → List Bytes → List Bytes
clear_cells zero cells = cells
clear_cells (suc n) [] = []
clear_cells (suc n) (x ∷ xs) = [] ∷ clear_cells n xs

unfoldable pub shift_cells : ℕ → ℕ → List Bytes → List Bytes
shift_cells by capacity cells =
    let steps : ℕ = if ltb capacity by then capacity else by in
    clear_cells steps (move_cells steps capacity capacity (fit capacity cells))

unfoldable pub shift_right_port : String → ℕ → DefaultMachineCore → DefaultMachineCore
shift_right_port port by c =
    if by == 0 then c else if c.capacity == 0 then c else elim (lookup port c.store) [
      | none ↦ c
      | some cells ↦ record c { store = insert port (shift_cells by c.capacity cells) c.store }
    ]

-- `store_[port][index] = text`
unfoldable pub write_cell : String → ℕ → Bytes → DefaultMachineCore → DefaultMachineCore
write_cell port index text c = record c {
  store = insert port (set (cells_of port c.store) index text) c.store;
}
