-- ===== src/Logic/References.antt =====
-- `refreshMasterFileReferenceSet`: the reference set of the master-in-file check.
use machine_controller.Base.{
  ℕ, ◌-◌, ◌≤◌, ◌<◌, ◌≡◌, ◌≢◌, refl, Bool, true, List, [], ◌∷◌, Bytes, Option, none, some, arith,
  ltb, leb, ◌==◌, length, take, drop, length-take, length-drop, sym, ◌⊎◌, inl, inr, if◌then◌else◌,
}
use machine_controller.Base.Int.{ℤ, pos, pos_part, ltb_ℤ}
use machine_controller.MachineCore.Extract.{extract_slice_at}
use machine_controller.MachineCore.State.{
  DefaultMachineCore, at_least, bytes_eq, has_element, is_reference, test_master_in_file,
  set_master_in_file_check_enabled, set_master_in_file_extraction, set_master_file_reference_set,
}

-- The tests settings that are read, each with its default where it is missing. `none` is a file that
-- cannot be opened, and the lines are those that `std::getline` returns.
pub record FileCheck : Type 0 where
  pub enabled : Bool
  pub start_index : ℤ
  pub len : ℤ
  pub has_path : Bool
  pub file : Option (List Bytes)

-- The token of a line; `none` for a line that is skipped.
unfoldable pub token_of : ℤ → ℤ → Bytes → Option Bytes
token_of start_index len line =
    let from : ℕ = pos_part (at_least (pos 0) start_index) in
    let avail : ℕ = length line - from in
    let want : ℕ = if ltb_ℤ (pos 0) len then pos_part len else avail in
    let count : ℕ = if ltb avail want then avail else want in
    if length line == 0
    then none
    else if leb (length line) from
    then none
    else if length (take count (drop from line)) == 0
    then none
    else some (take count (drop from line))

-- Insertion into the set.
unfoldable pub add_token : Option Bytes → List Bytes → List Bytes
add_token none refs = refs
add_token (some t) refs = if has_element t refs then refs else t ∷ refs

unfoldable pub reference_set : ℤ → ℤ → List Bytes → List Bytes → List Bytes
reference_set start_index len [] refs = refs
reference_set start_index len (line ∷ lines) refs =
    reference_set start_index len lines (add_token (token_of start_index len line) refs)

abbrev pub loaded : FileCheck → List Bytes
loaded s =
    if s.enabled
    then (if s.has_path
        then elim s.file [ none ↦ [] | some lines ↦ reference_set s.start_index s.len lines [] ]
        else [])
    else []

-- `none` is a setting of another type: reading it throws, the exception is caught, and the core keeps
-- what it had.
unfoldable pub refresh_references : Option FileCheck → DefaultMachineCore → DefaultMachineCore
refresh_references none c = c
refresh_references (some s) c = set_master_file_reference_set (loaded s) (
    set_master_in_file_extraction s.start_index (if ltb_ℤ (pos 0) s.len then s.len else pos 1000000)
      (set_master_in_file_check_enabled s.enabled c))

bytes_eq_refl : (t : Bytes) → bytes_eq t t ≡ true
unfolding bytes_eq
bytes_eq_refl [] = refl
bytes_eq_refl (b ∷ bs) = ground (arith, bytes_eq_refl bs)

add_token-keeps :
    (o : Option Bytes) (t : Bytes) (refs : List Bytes)
    → has_element t refs ≡ true
    → has_element t (add_token o refs) ≡ true
unfolding add_token has_element
add_token-keeps none t refs h = h
add_token-keeps (some u) t refs h = ground arith

-- An element stays when more lines are read.
reference_set-keeps :
    (start_index len : ℤ) (lines refs : List Bytes) (t : Bytes)
    → has_element t refs ≡ true
    → has_element t (reference_set start_index len lines refs) ≡ true
unfolding reference_set
reference_set-keeps start_index len [] refs t h = h
reference_set-keeps start_index len (line ∷ lines) refs t h =
    reference_set-keeps start_index len lines _ t
      (add_token-keeps (token_of start_index len line) t refs h)

add_token-has : (t : Bytes) (refs : List Bytes) → has_element t (add_token (some t) refs) ≡ true
unfolding add_token has_element
add_token-has t refs = ground (arith, bytes_eq_refl t)

-- A line of the file.
abbrev pub IsLine : Bytes → List Bytes → Type 0
IsLine line [] = ⊥
IsLine line (l ∷ ls) = (line ≡ l) ⊎ IsLine line ls

reference_set-has :
    (start_index len : ℤ) (line t : Bytes) (lines refs : List Bytes)
    → IsLine line lines
    → token_of start_index len line ≡ some t
    → has_element t (reference_set start_index len lines refs) ≡ true
unfolding reference_set
reference_set-has start_index len line t [] refs here e = absurd here
reference_set-has start_index len line t (l ∷ lines) refs (inl same) e =
    reference_set-keeps start_index len lines _ t (rw (sym same, e) (add_token-has t refs))
reference_set-has start_index len line t (l ∷ lines) refs (inr later) e =
    reference_set-has start_index len line t lines _ later e

-- The loader and the core cut the same token out of a line that is long enough for the start and no
-- longer than the length that stands for the rest of the line.
token_of-slice :
    (start_index len : ℤ) (line : Bytes)
    → pos_part (at_least (pos 0) start_index) < length line
    → length line ≤ 1000000
    → (t : Bytes) × (token_of start_index len line ≡ some t)
      × (extract_slice_at line
            (at_least (pos 0) start_index)
            (at_least (pos 1) (if ltb_ℤ (pos 0) len then len else pos 1000000))
          ≡ some t)
unfolding token_of extract_slice_at
token_of-slice start_index len line inside short =
    let from : ℕ = pos_part (at_least (pos 0) start_index) in
    let avail : ℕ = length line - from in
    let want : ℕ = if ltb_ℤ (pos 0) len then pos_part len else avail in
    let count : ℕ = if ltb avail want then avail else want in
    let n1 = length-take count (drop from line) in
    let n2 = length-drop from line in
    let len' : ℤ = at_least (pos 1) (if ltb_ℤ (pos 0) len then len else pos 1000000) in
    let same : (if ltb avail (pos_part len') then avail else pos_part len') ≡ count =
      ground arith in
    (take count (drop from line), ground (arith, n1, n2), ground (arith, same))

has_element-length : (t : Bytes) (refs : List Bytes) → has_element t refs ≡ true → length refs ≢ 0
unfolding has_element
has_element-length t [] h = absurd (ground arith)
has_element-length t (r ∷ rs) h = omega arith

-- After the reference set is loaded with the check enabled, every line of the file that reaches past
-- the start of the token, and is at most 1000000 bytes long, passes the check.
pub refresh-passes :
    (s : FileCheck) (lines : List Bytes) (line : Bytes) (c : DefaultMachineCore)
    → s.enabled ≡ true
    → s.has_path ≡ true
    → s.file ≡ some lines
    → IsLine line lines
    → pos_part (at_least (pos 0) s.start_index) < length line
    → length line ≤ 1000000
    → test_master_in_file line (refresh_references (some s) c) ≡ true
unfolding refresh_references test_master_in_file set_master_in_file_check_enabled
    set_master_in_file_extraction set_master_file_reference_set is_reference
refresh-passes s lines line c on path file here inside short =
    let (t, cut, slice) = token_of-slice s.start_index s.len line inside short in
    let has = reference_set-has s.start_index s.len line t lines [] here cut in
    ground
      (arith, slice, has, has_element-length t (reference_set s.start_index s.len lines []) has)
