-- ===== src/MachineCore/Invariant.antt =====
-- Every port's vector has `capacity` cells, and messages are stored where the configuration says.
use text.Mathlib.Text.{◌==◌ as str_eq}
use text.Mathlib.TextPositions.{eq_refl}
use machine_controller.Base.{
  ℕ, ◌<◌, ◌≡◌, ◌≢◌, refl, sym, ap, ◌∙◌, Bool, true, false, ◌&&◌, List, [], ◌∷◌, Bytes, String,
  Option, none, some, arith, ltb, ◌==◌, length, get_elem?, set, length-set, get_elem?-set_self,
  if_cases,
}
use machine_controller.Base.Int.{pos, pos_part, leb_ℤ, ◌≤ℤ◌}
use machine_controller.Base.Maps.{Map, lookup, insert, lookup-insert}
use machine_controller.MachineCore.Types.{
  IoChannel, JsonValue, CommCellMessage, CycleInputs, CycleEffects, CalibrationResult,
}
use machine_controller.MachineCore.State.{DefaultMachineCore}
use machine_controller.MachineCore.Store.{
  resize_all, set_store_capacity, cells_of, fit, ensure_port_capacity, shift_right_port, write_cell,
  shift_cells,
}
use machine_controller.MachineCore.Shift.{length-resize, length-fit, length-shift_cells}
use machine_controller.MachineCore.Step.{
  Outcome, done, threw, step_led, step_shift, is_calibration, calibration_of, store_message,
  step_calibration, step_message, step, rose, timer_rose, no_effects,
}

-- Every vector of the store has `n` cells.
abbrev pub Sized : ℕ → Map (List Bytes) → Type 0
Sized n [] = Unit {0}
Sized n ((port, cells) ∷ m) = (length cells ≡ n) × Sized n m

abbrev pub IsSized : DefaultMachineCore → Type 0
IsSized c = Sized c.capacity c.store

resize_all-Sized : (n : ℕ) (m : Map (List Bytes)) → Sized n (resize_all n m)
unfolding resize_all
resize_all-Sized n [] = tt
resize_all-Sized n ((port, cells) ∷ m) = (length-resize n cells, resize_all-Sized n m)

insert-Sized :
    (n : ℕ) (port : String) (cells : List Bytes) (m : Map (List Bytes))
    → length cells ≡ n
    → Sized n m
    → Sized n (insert port cells m)
unfolding insert
insert-Sized n port cells [] h s = (h, tt)
insert-Sized n port cells ((p, old) ∷ m) h s = ground (arith, insert-Sized n port cells m h s.1)

lookup-Sized :
    (n : ℕ) (port : String) (cells : List Bytes) (m : Map (List Bytes))
    → Sized n m
    → lookup port m ≡ some cells
    → length cells ≡ n
unfolding lookup
lookup-Sized n port cells [] s e = cc
lookup-Sized n port cells ((p, old) ∷ m) s e = ground (arith, lookup-Sized n port cells m s.1)

-- Setting the capacity resizes every vector.
pub set_store_capacity-IsSized : (n : ℕ) (c : DefaultMachineCore) → IsSized (set_store_capacity n c)
unfolding set_store_capacity
set_store_capacity-IsSized n c = resize_all-Sized n c.store

ensure-IsSized :
    (port : String) (c : DefaultMachineCore) → IsSized c → IsSized (ensure_port_capacity port c)
unfolding ensure_port_capacity
ensure-IsSized port c s =
    if_cases IsSized (c.capacity == 0) (λ _. s)
      (λ _.
        insert-Sized c.capacity port _ c.store (length-fit c.capacity (cells_of port c.store)) s)

ensure-cells :
    (port : String) (c : DefaultMachineCore)
    → c.capacity ≢ 0
    → cells_of port (ensure_port_capacity port c).store ≡ fit c.capacity (cells_of port c.store)
unfolding ensure_port_capacity cells_of
ensure-cells port c h =
    ground (
      arith,
      lookup-insert port port (fit c.capacity (cells_of port c.store)) c.store,
      eq_refl port,
    )

ensure-capacity :
    (port : String) (c : DefaultMachineCore) → (ensure_port_capacity port c).capacity ≡ c.capacity
unfolding ensure_port_capacity
ensure-capacity port c = ground arith

write_cell-IsSized :
    (port : String) (index : ℕ) (text : Bytes) (c : DefaultMachineCore)
    → c.capacity ≢ 0
    → IsSized c
    → IsSized (write_cell port index text (ensure_port_capacity port c))
unfolding write_cell
write_cell-IsSized port index text c h s =
    let c' : DefaultMachineCore = ensure_port_capacity port c in
    insert-Sized c'.capacity port (set (cells_of port c'.store) index text) c'.store
      (length-set (cells_of port c'.store) index text
        ∙ ap length (ensure-cells port c h)
        ∙ length-fit c.capacity (cells_of port c.store)
        ∙ sym (ensure-capacity port c))
      (ensure-IsSized port c s)

shift-IsSized :
    (port : String) (by : ℕ) (c : DefaultMachineCore)
    → IsSized c
    → IsSized (shift_right_port port by c)
unfolding shift_right_port
shift-IsSized port by c s =
    if_cases IsSized (by == 0) (λ _. s)
      (λ _. if_cases IsSized (c.capacity == 0) (λ _. s) (λ _. found (lookup port c.store)))
  where
    found :
        (o : Option (List Bytes))
        → IsSized (elim o [
          | none ↦ c
          | some cells ↦ record c { store = insert port (shift_cells by c.capacity cells) c.store }
        ])
    found none = s
    found (some cells) =
        insert-Sized c.capacity port _ c.store (length-shift_cells by c.capacity cells) s

abbrev pub OutcomeSized : Outcome → Type 0
OutcomeSized (done fx c) = IsSized c
OutcomeSized (threw c) = IsSized c

step_shift-IsSized :
    (i8 : Option IoChannel) (fx : CycleEffects) (c : DefaultMachineCore)
    → IsSized c
    → OutcomeSized (step_shift i8 fx c)
unfolding step_shift
step_shift-IsSized i8 fx c s =
    if_cases OutcomeSized (rose i8) (λ _. shift-IsSized "communication1" 1 c s) (λ _. s)

step_led-IsSized :
    (edge : Bool) (fx : CycleEffects) (c : DefaultMachineCore)
    → IsSized c
    → IsSized (step_led edge fx c).1
unfolding step_led
step_led-IsSized edge fx c s = ground arith

cells_of-insert :
    (port : String) (cells : List Bytes) (m : Map (List Bytes))
    → cells_of port (insert port cells m) ≡ cells
unfolding cells_of
cells_of-insert port cells m = ground (arith, lookup-insert port port cells m, eq_refl port)

ensure-other :
    (name port : String) (c : DefaultMachineCore)
    → str_eq name port ≡ false
    → lookup port (ensure_port_capacity name c).store ≡ lookup port c.store
unfolding ensure_port_capacity
ensure-other name port c h =
    if_cases (λ (d : DefaultMachineCore). lookup port d.store ≡ lookup port c.store)
      (c.capacity == 0) (λ _. refl) (λ _. lookup-insert name port _ c.store ∙ rw h)

-- What a write to a cell of a prepared port leaves.
write_cell-stored :
    (name : String) (index : ℕ) (text : Bytes) (c : DefaultMachineCore)
    → index < c.capacity
    → let c' = write_cell name index text (ensure_port_capacity name c) in
      (get_elem? (cells_of name c'.store) index ≡ some text)
      × ((port : String) → str_eq name port ≡ false → lookup port c'.store ≡ lookup port c.store)
unfolding write_cell
write_cell-stored name index text c high =
    let cells : List Bytes = cells_of name (ensure_port_capacity name c).store in
    let same : length cells ≡ c.capacity =
      ap length (ensure-cells name c (omega arith))
      ∙ length-fit c.capacity (cells_of name c.store) in
    (
      rw (cells_of-insert name (set cells index text) (ensure_port_capacity name c).store)
          (get_elem?-set_self cells index text (omega arith)),
      λ port h.
          lookup-insert name port (set cells index text) (ensure_port_capacity name c).store
          ∙ rw h (ensure-other name port c h),
    )

module _ (J : JsonValue) where
  open J use {Value}

  store_message-IsSized :
      (m : CommCellMessage Value) (fx : CycleEffects) (c : DefaultMachineCore)
      → IsSized c
      → IsSized (store_message J m fx c).1
  unfolding store_message
  store_message-IsSized m fx c s =
      let c' : DefaultMachineCore = ensure_port_capacity m.comm_name c in
      if_cases (λ (r : CycleEffects × DefaultMachineCore). IsSized r.1)
        (leb_ℤ (pos 0) m.offset && ltb (pos_part m.offset) c'.capacity)
        (λ e.
          write_cell-IsSized m.comm_name (pos_part m.offset) m.raw c
            (ground (arith, ensure-capacity m.comm_name c)) s)
        (λ _. ensure-IsSized m.comm_name c s)

  step_calibration-IsSized :
      (port : String) (v : Option Value) (i8 : Option IoChannel) (fx : CycleEffects)
      (c : DefaultMachineCore)
      → IsSized c
      → OutcomeSized (step_calibration J port v i8 fx c)
  unfolding step_calibration
  step_calibration-IsSized port none i8 fx c s = step_shift-IsSized i8 fx c s
  step_calibration-IsSized port (some v) i8 fx c s = found (calibration_of J port v)
    where
      found :
          (o : Option (Option CalibrationResult))
          → OutcomeSized (elim o [
            | none ↦ threw c
            | some result ↦ step_shift i8 (record fx { calibration = result }) c
          ])
      found none = s
      found (some result) = step_shift-IsSized i8 (record fx { calibration = result }) c s

  step_message-IsSized :
      (m : Option (CommCellMessage Value)) (i8 : Option IoChannel) (fx : CycleEffects)
      (c : DefaultMachineCore)
      → IsSized c
      → OutcomeSized (step_message J m i8 fx c)
  unfolding step_message
  step_message-IsSized none i8 fx c s = step_shift-IsSized i8 fx c s
  step_message-IsSized (some m) i8 fx c s =
      if_cases OutcomeSized (is_calibration J m.parsed)
        (λ _. step_calibration-IsSized m.comm_name m.parsed i8 fx c s)
        (λ _. step_shift-IsSized i8 _ _ (store_message-IsSized m fx c s))

  -- A cycle keeps every port's vector at exactly `capacity` cells, also when it ends in an exception.
  pub step-IsSized :
      (inp : CycleInputs Value) (c : DefaultMachineCore) → IsSized c → OutcomeSized (step J inp c)
  unfolding step
  step-IsSized inp c s =
      step_message-IsSized inp.new_comm_msg _ _ _
        (step_led-IsSized (timer_rose (lookup "timer1" inp.timer_edges)) no_effects c s)

  -- A message that is no calibration result and whose offset is a cell is stored in that cell of its
  -- port's vector, the store is reported as changed, and the other ports are as before.
  pub store_message-stored :
      (m : CommCellMessage Value) (fx : CycleEffects) (c : DefaultMachineCore)
      → pos 0 ≤ℤ m.offset
      → pos_part m.offset < c.capacity
      → let (fx', c') = store_message J m fx c in
        (fx'.barcode_store_changed ≡ true)
        × (get_elem? (cells_of m.comm_name c'.store) (pos_part m.offset) ≡ some m.raw)
        × ((port : String)
            → str_eq m.comm_name port ≡ false
            → lookup port c'.store ≡ lookup port c.store)
  unfolding store_message
  store_message-stored m fx c low high =
      let c' : DefaultMachineCore = ensure_port_capacity m.comm_name c in
      if_cases
        (λ (r : CycleEffects × DefaultMachineCore).
          (r.0.barcode_store_changed ≡ true)
          × (get_elem? (cells_of m.comm_name r.1.store) (pos_part m.offset) ≡ some m.raw)
          × ((port : String)
              → str_eq m.comm_name port ≡ false
              → lookup port r.1.store ≡ lookup port c.store))
        (leb_ℤ (pos 0) m.offset && ltb (pos_part m.offset) c'.capacity)
        (λ e.
          let w = write_cell-stored m.comm_name (pos_part m.offset) m.raw c high in
          (refl, w.0, w.1))
        (λ e. absurd (ground (arith, ensure-capacity m.comm_name c)))
