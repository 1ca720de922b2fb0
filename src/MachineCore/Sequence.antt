-- ===== src/MachineCore/Sequence.antt =====
-- The sequence check against runs of consecutive numbers.
use text.Mathlib.Text.{◌==◌ as str_eq}
use machine_controller.Base.{
  ℕ, zero, suc, ◌+◌, ◌≡◌, refl, ◌↔◌, Bool, true, false, ◌&&◌, List, [], ◌∷◌, Bytes, some, arith,
  length, ◌==◌,
}
use machine_controller.MachineCore.Extract.{extract_number_at}
use machine_controller.MachineCore.State.{
  DefaultMachineCore, check_master_sequence, check_number, follows,
}

-- Do all texts pass, one after the other?
unfoldable pub all_pass : List Bytes → DefaultMachineCore → Bool
all_pass [] c = true
all_pass (t ∷ ts) c = let (passed, c') = check_master_sequence t c in passed && all_pass ts c'

-- The numbers that the texts hold at the configured place.
abbrev pub Extracts : DefaultMachineCore → List Bytes → List ℕ → Type 0
Extracts c [] [] = Unit {0}
Extracts c [] (n ∷ ns) = ⊥
Extracts c (t ∷ ts) [] = ⊥
Extracts c (t ∷ ts) (n ∷ ns) =
    (extract_number_at t c.master_start_index c.master_length ≡ some n) × Extracts c ts ns

-- The `k` numbers after `last`.
unfoldable pub run_after : ℕ → ℕ → List ℕ
run_after last zero = []
run_after last (suc k) = (last + 1) ∷ run_after (last + 1) k

-- The check of one number, and what it leaves.
check_some :
    (t : Bytes) (n last : ℕ) (c : DefaultMachineCore)
    → c.master_sequence_enabled ≡ true
    → str_eq c.sequence_direction "Descending" ≡ false
    → c.last_seq_number ≡ some last
    → extract_number_at t c.master_start_index c.master_length ≡ some n
    → check_master_sequence t c ≡ (n == last + 1, record c { last_seq_number = some n })
unfolding check_master_sequence check_number follows
check_some t n last c on up before e = ground arith

-- With the check enabled and ascending, and after the number `last`, texts that hold the numbers
-- `ns` all pass exactly if `ns` are the numbers that follow `last` one by one.
pub all_pass-run_after :
    (ts : List Bytes) (ns : List ℕ) (last : ℕ) (c : DefaultMachineCore)
    → c.master_sequence_enabled ≡ true
    → str_eq c.sequence_direction "Descending" ≡ false
    → c.last_seq_number ≡ some last
    → Extracts c ts ns
    → (all_pass ts c ≡ true) ↔ (ns ≡ run_after last (length ns))
unfolding all_pass run_after
all_pass-run_after [] [] last c on up before h = (λ _. refl, λ _. refl)
all_pass-run_after [] (n ∷ ns) last c on up before h = absurd h
all_pass-run_after (t ∷ ts) [] last c on up before h = absurd h
all_pass-run_after (t ∷ ts) (n ∷ ns) last c on up before h =
    let rest = all_pass-run_after ts ns n (record c { last_seq_number = some n }) on up refl h.1 in
    (
      λ p. ground (arith, check_some t n last c on up before h.0, rest.0),
      λ p. ground (arith, check_some t n last c on up before h.0, rest.1),
    )
