-- ===== src/Timers/Tests.antt =====
-- The theorems on timers at concrete interleavings.
use machine_controller.Base.{◌<◌, ◌≡◌, refl, true, false, ◌⊎◌, inl, arith}
use machine_controller.Timers.{
  expired, checking, settling, sleeping, idle, joining, ended, TimerState, WorkerStep,
  sees_no_cancel, falls_asleep, times_out, begins_call, ends_call, begins_start, joins, launches,
  fresh_timer, still, by_worker, by_owner, Reach, made, later, launched,
}
use machine_controller.Timers.Safety.{IsSilent, steps_left, Quiet-ends}

abbrev called_once : TimerState
called_once = record { cancelled = false; worker = ended; owner = idle; starts = 1; calls = 1 }

abbrev asleep : TimerState
asleep = record { cancelled = false; worker = sleeping; owner = idle; starts = 1; calls = 0 }

abbrev started :
    Reach (record { cancelled = false; worker = checking; owner = idle; starts = 1; calls = 0 })
started =
    launched
      (later made (
        by_owner {t = record fresh_timer { cancelled = true; owner = joining }}
          (by_owner still (begins_start refl refl)) (joins refl (inl refl) refl)))
      (launches refl refl)

abbrev fell_asleep : Reach asleep
fell_asleep =
    later started
      (by_worker (by_worker still (sees_no_cancel refl refl refl)) (falls_asleep refl refl))

abbrev ran_once : Reach called_once
ran_once = later fell_asleep (
    by_worker (by_worker (by_worker still (times_out refl refl)) (begins_call refl refl refl))
      (ends_call refl refl))

abbrev missed : TimerState
missed = record asleep { cancelled = true; worker = settling }

-- The cancel comes between the worker's test and its sleep: it sleeps until the time runs out.
Quiet-ends_example :
    let late : TimerState = record missed { worker = expired } in
    IsSilent 0 late
    × (((u : TimerState) → WorkerStep late u → steps_left u.worker < 1)
        × ((steps_left expired ≡ 0) ⊎ ((u : TimerState) × WorkerStep late u)))
Quiet-ends_example =
    Quiet-ends 0 (by_worker (by_worker still (falls_asleep refl refl)) (times_out refl refl))
      (record { flag = refl; not_calling = λ e. ground arith; so_far = refl })
