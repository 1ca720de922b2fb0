-- ===== src/Timers.antt =====
-- The thread of a timer against its owner: `start` and `cancel` of include/Timer.h, interleaved with
-- the worker in any order.
pub mod Safety
mod Tests
use machine_controller.Base.{ℕ, suc, ◌+◌, ◌≡◌, Bool, true, false, ◌⊎◌}

-- Where the worker stands: no thread, about to test `cancelled_`, between a test that found it false
-- and its sleep (when a `notify_all` is missed), asleep in `wait_for`, woken by the end of the time and
-- about to test again, in the callback, or ended but not joined.
pub data Worker : Type 0 where
  gone checking settling sleeping expired calling ended : Worker

-- Where the owner stands: outside of `start`, in its `join`, or behind it.
pub data Owner : Type 0 where
  idle joining launching : Owner

-- `starts` and `calls` count the workers launched and the callbacks made.
pub record TimerState : Type 0 where
  pub cancelled : Bool
  pub worker : Worker
  pub owner : Owner
  pub starts : ℕ
  pub calls : ℕ

-- `notify_all` wakes the worker only if it sleeps.
abbrev pub notified : Worker → Worker
notified sleeping = checking
notified w = w

-- A step of the worker's function, and of the time that it waits for.
pub data WorkerStep (s t : TimerState) : Type 0 where
  sees_cancel :
      s.worker ≡ checking → s.cancelled ≡ true → t ≡ record s { worker = ended } → WorkerStep s t
  sees_no_cancel :
      s.worker ≡ checking
      → s.cancelled ≡ false
      → t ≡ record s { worker = settling }
      → WorkerStep s t
  falls_asleep : s.worker ≡ settling → t ≡ record s { worker = sleeping } → WorkerStep s t
  wakes : s.worker ≡ sleeping → t ≡ record s { worker = checking } → WorkerStep s t
  times_out : s.worker ≡ sleeping → t ≡ record s { worker = expired } → WorkerStep s t
  sees_late_cancel :
      s.worker ≡ expired → s.cancelled ≡ true → t ≡ record s { worker = ended } → WorkerStep s t
  begins_call :
      s.worker ≡ expired → s.cancelled ≡ false → t ≡ record s { worker = calling } → WorkerStep s t
  ends_call :
      s.worker ≡ calling → t ≡ record s { worker = ended; calls = suc s.calls } → WorkerStep s t

-- A step of the owner that launches no worker: `cancel`, the `cancel` at the start of `start`, and its
-- `join`, which passes when there is no thread or it has ended.
pub data OwnerStep (s t : TimerState) : Type 0 where
  cancels :
      s.owner ≡ idle → t ≡ record s { cancelled = true; worker = notified s.worker } → OwnerStep s t
  begins_start :
      s.owner ≡ idle
      → t ≡ record s { cancelled = true; worker = notified s.worker; owner = joining }
      → OwnerStep s t
  joins :
      s.owner ≡ joining
      → (s.worker ≡ gone) ⊎ (s.worker ≡ ended)
      → t ≡ record s { worker = gone; owner = launching }
      → OwnerStep s t

-- The rest of `start`: the flag is reset and the thread made.
pub data Launch (s t : TimerState) : Type 0 where
  launches :
      s.owner ≡ launching
      → t ≡ record s { cancelled = false; worker = checking; owner = idle; starts = suc s.starts }
      → Launch s t

abbrev pub fresh_timer : TimerState
fresh_timer = record { cancelled = false; worker = gone; owner = idle; starts = 0; calls = 0 }

-- Steps in any order, without a launch.
pub data Quiet (s : TimerState) : TimerState → Type 0 where
  still : Quiet s s
  by_worker : {t u : TimerState} → Quiet s t → WorkerStep t u → Quiet s u
  by_owner : {t u : TimerState} → Quiet s t → OwnerStep t u → Quiet s u

-- The states of a timer.
pub data Reach : TimerState → Type 0 where
  made : Reach fresh_timer
  later : {s t : TimerState} → Reach s → Quiet s t → Reach t
  launched : {s t : TimerState} → Reach s → Launch s t → Reach t
