-- ===== src/EventQueue/Tests.antt =====
-- The theorems on the event queue at concrete runs.
use machine_controller.Base.{ℕ, ◌≡◌, refl, List, [], ◌∷◌, ◌++◌, arith}
use machine_controller.EventQueue.{push, try_pop, Traffic, Run, here, next_push, next_pop}
use machine_controller.EventQueue.Order.{IsOrdered, Run-handles}

abbrev two_waiting : Traffic ℕ
two_waiting = record { queue = 4 ∷ 7 ∷ []; pushed = 4 ∷ 7 ∷ []; handled = [] }

abbrev after_both : Traffic ℕ
after_both = record { queue = 9 ∷ []; pushed = 4 ∷ 7 ∷ 9 ∷ []; handled = 4 ∷ 7 ∷ [] }

-- Another port pushes 9 between the two pops.
abbrev pops_around_push : Run two_waiting 2 after_both
unfolding push try_pop
pops_around_push =
    next_pop 7 (9 ∷ []) (next_push 9 (next_pop 4 (7 ∷ []) here refl refl) refl) refl refl

Run-handles_example :
    IsOrdered after_both × ((rest : List ℕ) × (4 ∷ 7 ∷ [] ≡ [] ++ ((4 ∷ []) ++ (7 ∷ rest))))
Run-handles_example = Run-handles (4 ∷ []) 7 [] refl refl pops_around_push (omega arith)
