-- ===== src/EventQueue.antt =====
-- The queue between the threads: include/EventQueue.h. Its mutex makes every call one step, so a run
-- of the program is a sequence of pushes by the ports, timers, the card and the GUI, and of pops by
-- the logic thread, in any order.
pub mod Order
mod Tests
use machine_controller.Base.{ℕ, suc, ◌≡◌, List, [], ◌∷◌, ◌++◌, Option, none, some}

module _ {ℓ} {A : Type ℓ} where
  unfoldable pub push : A → List A → List A
  push e q = q ++ (e ∷ [])

  -- `none` is an empty queue.
  unfoldable pub try_pop : List A → Option (A × List A)
  try_pop [] = none
  try_pop (e ∷ q) = some (e, q)

-- The queue, what was pushed, and what `wait_and_pop` has handed to the logic thread.
pub record Traffic {ℓ} (A : Type ℓ) : Type ℓ where
  pub queue : List A
  pub pushed : List A
  pub handled : List A

-- A run with `k` pops. `wait_and_pop` waits while the queue is empty: it is a step only when there is an
-- event.
pub data Run {ℓ} {A : Type ℓ} (s : Traffic A) : ℕ → Traffic A → Type ℓ where
  here : Run s 0 s
  next_push :
      {k : ℕ} {t u : Traffic A} (e : A)
      → Run s k t
      → u ≡ record t { queue = push e t.queue; pushed = t.pushed ++ (e ∷ []) }
      → Run s k u
  next_pop :
      {k : ℕ} {t u : Traffic A} (e : A) (q : List A)
      → Run s k t
      → try_pop t.queue ≡ some (e, q)
      → u ≡ record t { queue = q; handled = t.handled ++ (e ∷ []) }
      → Run s (suc k) u
