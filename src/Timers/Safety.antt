-- ===== src/Timers/Safety.antt =====
-- What holds of a timer's callback whatever the interleaving.
use machine_controller.Base.{ℕ, suc, ◌+◌, ◌≤◌, ◌<◌, ◌≡◌, ◌≢◌, refl, true, ◌⊎◌, inl, inr, arith}
use machine_controller.Timers.{
  Worker, gone, checking, settling, sleeping, expired, calling, ended, launching, TimerState,
  WorkerStep, sees_cancel, sees_no_cancel, falls_asleep, wakes, times_out, sees_late_cancel,
  begins_call, ends_call, OwnerStep, cancels, begins_start, joins, launches, Quiet, still,
  by_worker, by_owner, Reach, made, later, launched,
}

-- A callback that a worker may still make.
abbrev pub due : Worker → ℕ
due gone = 0
due ended = 0
due w = 1

-- Each launch pays for one callback, and a start makes its worker when no other is there.
record IsPaid (s : TimerState) : Type 0 where
  pub paid : s.calls + due s.worker ≤ s.starts
  pub alone : s.owner ≡ launching → s.worker ≡ gone

WorkerStep-IsPaid : {s t : TimerState} → WorkerStep s t → IsPaid s → IsPaid t
WorkerStep-IsPaid (sees_cancel w c e) p = ground arith
WorkerStep-IsPaid (sees_no_cancel w c e) p = ground arith
WorkerStep-IsPaid (falls_asleep w e) p = ground arith
WorkerStep-IsPaid (wakes w e) p = ground arith
WorkerStep-IsPaid (times_out w e) p = ground arith
WorkerStep-IsPaid (sees_late_cancel w c e) p = ground arith
WorkerStep-IsPaid (begins_call w c e) p = ground arith
WorkerStep-IsPaid (ends_call w e) p = ground arith

OwnerStep-IsPaid : {s t : TimerState} → OwnerStep s t → IsPaid s → IsPaid t
OwnerStep-IsPaid (cancels o e) p = ground arith
OwnerStep-IsPaid (begins_start o e) p = ground arith
OwnerStep-IsPaid (joins o w e) p = ground arith

Quiet-IsPaid : {s t : TimerState} → Quiet s t → IsPaid s → IsPaid t
Quiet-IsPaid still p = p
Quiet-IsPaid (by_worker q w) p = WorkerStep-IsPaid w (Quiet-IsPaid q p)
Quiet-IsPaid (by_owner q o) p = OwnerStep-IsPaid o (Quiet-IsPaid q p)

-- In every interleaving of the owner and the worker, a timer calls back at most once for each start.
Reach-IsPaid : {s : TimerState} → Reach s → IsPaid s
Reach-IsPaid made = ground arith
Reach-IsPaid (later r q) = Quiet-IsPaid q (Reach-IsPaid r)
Reach-IsPaid (launched r (launches o e)) = let p = Reach-IsPaid r in ground arith

-- Cancelled before the callback began.
pub record IsSilent (n : ℕ) (s : TimerState) : Type 0 where
  pub flag : s.cancelled ≡ true
  pub not_calling : s.worker ≢ calling
  pub so_far : s.calls ≡ n

WorkerStep-IsSilent : {s t : TimerState} (n : ℕ) → WorkerStep s t → IsSilent n s → IsSilent n t
WorkerStep-IsSilent n (sees_cancel w c e) p = ground arith
WorkerStep-IsSilent n (sees_no_cancel w c e) p = ground arith
WorkerStep-IsSilent n (falls_asleep w e) p = ground arith
WorkerStep-IsSilent n (wakes w e) p = ground arith
WorkerStep-IsSilent n (times_out w e) p = ground arith
WorkerStep-IsSilent n (sees_late_cancel w c e) p = ground arith
WorkerStep-IsSilent n (begins_call w c e) p = ground arith
WorkerStep-IsSilent n (ends_call w e) p = ground arith

OwnerStep-IsSilent : {s t : TimerState} (n : ℕ) → OwnerStep s t → IsSilent n s → IsSilent n t
OwnerStep-IsSilent n (cancels o e) p = ground arith
OwnerStep-IsSilent n (begins_start o e) p = ground arith
OwnerStep-IsSilent n (joins o w e) p = ground arith

Quiet-IsSilent : {s t : TimerState} (n : ℕ) → Quiet s t → IsSilent n s → IsSilent n t
Quiet-IsSilent n still p = p
Quiet-IsSilent n (by_worker q w) p = WorkerStep-IsSilent n w (Quiet-IsSilent n q p)
Quiet-IsSilent n (by_owner q o) p = OwnerStep-IsSilent n o (Quiet-IsSilent n q p)

-- The steps that a worker has left once it is cancelled.
abbrev pub steps_left : Worker → ℕ
steps_left gone = 0
steps_left ended = 0
steps_left sleeping = 2
steps_left settling = 3
steps_left w = 1

cancelled_ends :
    (s : TimerState)
    → s.cancelled ≡ true
    → ((t : TimerState) → WorkerStep s t → steps_left t.worker < steps_left s.worker)
      × ((steps_left s.worker ≡ 0) ⊎ ((t : TimerState) × WorkerStep s t))
cancelled_ends s c = (nearer, moves s.worker refl)
  where
    nearer : (t : TimerState) → WorkerStep s t → steps_left t.worker < steps_left s.worker
    nearer t (sees_cancel w b e) = ground arith
    nearer t (sees_no_cancel w b e) = ground arith
    nearer t (falls_asleep w e) = ground arith
    nearer t (wakes w e) = ground arith
    nearer t (times_out w e) = ground arith
    nearer t (sees_late_cancel w b e) = ground arith
    nearer t (begins_call w b e) = ground arith
    nearer t (ends_call w e) = ground arith

    moves : (w : Worker) → s.worker ≡ w → (steps_left w ≡ 0) ⊎ ((t : TimerState) × WorkerStep s t)
    moves gone e = inl refl
    moves ended e = inl refl
    moves checking e = inr (record s { worker = ended }, sees_cancel e c refl)
    moves settling e = inr (record s { worker = sleeping }, falls_asleep e refl)
    moves sleeping e = inr (record s { worker = expired }, times_out e refl)
    moves expired e = inr (record s { worker = ended }, sees_late_cancel e c refl)
    moves calling e = inr (record s { worker = ended; calls = suc s.calls }, ends_call e refl)

-- After a timer is cancelled outside of its callback, and until it is started again: no callback follows,
-- also if its time runs out or a wake-up is missed, and each step of its worker brings it nearer to its
-- end. A worker that has not ended has a step, so the `join` of `start` and of the destructor returns.
pub Quiet-ends :
    {s t : TimerState} (n : ℕ)
    → Quiet s t
    → IsSilent n s
    → IsSilent n t
      × (((u : TimerState) → WorkerStep t u → steps_left u.worker < steps_left t.worker)
          × ((steps_left t.worker ≡ 0) ⊎ ((u : TimerState) × WorkerStep t u)))
Quiet-ends {t} n q p = let silent = Quiet-IsSilent n q p in (silent, cancelled_ends t silent.flag)
