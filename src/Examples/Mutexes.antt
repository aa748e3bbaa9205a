-- ===== src/Examples/Mutexes.antt =====
-- The theorems on mutexes at concrete kernels.
use lltrisc_v.Prelude.{
  ℕ, ◌+◌, ◌-◌, ◌<◌, ◌≡◌, ◌≢◌, refl, true, List, [], ◌∷◌, some, none, arith, if◌then◌else◌, ltb,
}
use lltrisc_v.Kernel.State.{eok, error, etimeout, efull, has_stat, thread_ready}
use lltrisc_v.Kernel.Lists.{set_error}
use lltrisc_v.Scheduler.{
  scheduler_init, scheduler_start, insert_thread, start_with, highest_ready_priority,
}
use lltrisc_v.Bits.Ffs.{rt_ffs, lowest_bit_bitmap}
use lltrisc_v.Timer.{timer_init, timer_stop, timer_unlink}
use lltrisc_v.Thread.{thread_init_call, thread_startup, thread_resume}
use lltrisc_v.Ipc.{returns, waits}
use lltrisc_v.Ipc.Waiting.{Waits}
use lltrisc_v.Ipc.Mutex.{Mutex, mutex_take, mutex_release, inherit, mutex_hold_max}
use lltrisc_v.Ipc.Mutex.Ownership.{IsMutex, mutex_take-cases, mutex_take-IsMutex}
use lltrisc_v.Ipc.Mutex.Handover.{mutex_release-cases, mutex_release-IsMutex}
use lltrisc_v.Examples.States.{
  running, running-IsScheduled, running-current, running-ready, running-once,
}

abbrev ten_ticks : ℕ
ten_ticks = 10

-- A free mutex, and the same mutex when thread 1 has taken it.
abbrev free : Mutex
free = record {
  suspend_thread = 5;
  flag = 1;
  value = 1;
  original_priority = 255;
  hold = 0;
  owner = none;
}

free-IsMutex : IsMutex free running
unfolding thread_init_call timer_init scheduler_init thread_startup thread_resume insert_thread
    timer_stop timer_unlink scheduler_start start_with highest_ready_priority rt_ffs
    lowest_bit_bitmap
free-IsMutex = record {
  scheduled = running-IsScheduled;
  free = λ e. (refl, refl, refl);
  held = λ o e. cc;
}

abbrev owned : Mutex
owned = record {
  suspend_thread = 5;
  flag = 1;
  value = 0;
  original_priority = 2;
  hold = 1;
  owner = some 1;
}

owned-IsMutex : IsMutex owned running
owned-IsMutex = record {
  scheduled = running-IsScheduled;
  free = λ e. cc;
  held = λ o e. (refl, omega arith, omega arith, omega arith);
}

mutex_take-IsMutex_example : let r = mutex_take free 0 running in IsMutex r.1 r.2
mutex_take-IsMutex_example =
    mutex_take-IsMutex free 1 running free-IsMutex running-current running-ready 0

mutex_release-IsMutex_example : let r = mutex_release owned running in IsMutex r.1 r.2
mutex_release-IsMutex_example =
    mutex_release-IsMutex owned 1 running owned-IsMutex running-current running-ready

-- A mutex that thread 2, of a lower priority, has taken.
abbrev other : Mutex
other = record {
  suspend_thread = 5;
  flag = 1;
  value = 0;
  original_priority = 3;
  hold = 1;
  owner = some 2;
}

other-IsMutex : IsMutex other running
other-IsMutex = record {
  scheduled = running-IsScheduled;
  free = λ e. cc;
  held = λ o e. (refl, omega arith, omega arith, omega arith);
}

mutex_take-cases_example :
    let (r, m', k') = mutex_take other 10 running in
    let k0 = set_error 1 eok running in
    (other.owner ≡ none
      → (r ≡ returns eok)
        × (m' ≡ record other {
          value = 0;
          owner = some 1;
          original_priority = (running.thread 1).current_priority;
          hold = 1;
        })
        × (k' ≡ k0))
    × (other.owner ≡ some 1
        → other.hold < mutex_hold_max
        → (r ≡ returns eok) × (m' ≡ record other { hold = other.hold + 1 }) × (k' ≡ k0))
    × (other.owner ≡ some 1
        → other.hold ≡ mutex_hold_max
        → (r ≡ returns efull) × (m' ≡ other) × (k' ≡ k0))
    × ((o : ℕ)
        → other.owner ≡ some o
        → o ≢ 1
        → ten_ticks ≡ 0
        → (r ≡ returns etimeout) × (m' ≡ other) × (k' ≡ set_error 1 etimeout k0))
    × ((o : ℕ)
        → other.owner ≡ some o
        → o ≢ 1
        → ten_ticks ≢ 0
        → (r ≡ waits)
          × (m' ≡ other)
          × ((k'.thread o).current_priority ≡ (
              if ltb (running.thread 1).current_priority (running.thread o).current_priority
              then (running.thread 1).current_priority
              else (running.thread o).current_priority))
          × Waits (inherit other 1 k0) 5 1 1 10 k')
mutex_take-cases_example =
    mutex_take-cases other 1 running other-IsMutex running-current running-ready 10 running-once
      (omega arith)

mutex_release-cases_example :
    let (r, m', k') = mutex_release owned running in
    (owned.owner ≢ some 1 → (r ≡ error) × (m' ≡ owned) × (k' ≡ set_error 1 error running))
    × (owned.owner ≡ some 1
        → 1 < owned.hold
        → (r ≡ eok) × (m' ≡ record owned { hold = owned.hold - 1 }) × (k' ≡ running))
    × (owned.owner ≡ some 1
        → owned.hold ≡ 1
        → running.suspend_list 5 ≡ []
        → (r ≡ eok)
          × (m' ≡ record owned { value = 1; owner = none; original_priority = 255; hold = 0 })
          × ((k'.thread 1).current_priority ≡ owned.original_priority))
    × ((u : ℕ) (us : List ℕ)
        → owned.owner ≡ some 1
        → owned.hold ≡ 1
        → running.suspend_list 5 ≡ u ∷ us
        → (r ≡ eok)
          × (m' ≡ record owned {
            owner = some u;
            original_priority = (running.thread u).current_priority;
            hold = 1;
          })
          × (k'.suspend_list 5 ≡ us)
          × (has_stat thread_ready (k'.thread u) ≡ true)
          × ((k'.thread 1).current_priority ≡ owned.original_priority))
mutex_release-cases_example =
    mutex_release-cases owned 1 running owned-IsMutex running-current running-ready
