-- ===== src/Clock/Tick.antt =====
-- `rt_tick_increase` from a consistent state.
use lltrisc_v.Prelude.{ℕ, ◌+◌, ◌%◌, ◌^◌, ◌<◌, ◌≡◌, refl, Option, some, none, arith}
use lltrisc_v.Kernel.State.{Kernel}
use lltrisc_v.Kernel.Lists.{set_thread}
use lltrisc_v.Scheduler.Highest.{schedule-same, SameQueues-IsScheduled}
use lltrisc_v.Timer.{next_due, timer_check}
use lltrisc_v.Thread.{thread_yield, to_tail, run_timeout}
use lltrisc_v.Thread.Lifecycle.{thread_yield-IsScheduled}
use lltrisc_v.Clock.{count_slice, tick_increase}
use lltrisc_v.Clock.Safe.{IsQuiet, IsTimed, IsTimed-if}
use lltrisc_v.Clock.Due.{HasPeriods, due_in}
use lltrisc_v.Clock.Ends.{timer_check-ends}

-- A write to the time slice.
sliced-IsTimed :
    (t left : ℕ) (k : Kernel)
    → IsTimed k
    → IsTimed (set_thread t (record (k.thread t) { remaining_tick = left }) k)
sliced-IsTimed t left k i = record {
  scheduled = record {
    fits = i.scheduled.fits;
    group = i.scheduled.group;
    queued = λ u p. ground (arith, i.scheduled.queued u p);
    once = i.scheduled.once;
    masks = λ u h. ground (arith, i.scheduled.masks u);
    waiting = λ u o h. ground (arith, i.scheduled.waiting u o);
    waiting_once = i.scheduled.waiting_once;
  };
  owned = λ m u e. ground (arith, i.owned m u);
  pending = λ m u e h. ground (arith, i.pending m u);
  distinct = i.distinct;
}

-- What `rt_thread_yield` leaves alone.
record Same (k l : Kernel) : Type 0 where
  pub thread : l.thread ≡ k.thread
  pub timer : l.timer ≡ k.timer
  pub timer_list : l.timer_list ≡ k.timer_list
  pub tick : l.tick ≡ k.tick

yield-Same : (k : Kernel) → Same k (thread_yield k).1
unfolding thread_yield
yield-Same k = yields k.current_thread refl
  where
    yields : (c : Option ℕ) → k.current_thread ≡ c → Same k (thread_yield k).1
    yields none e = rw (e, thread_yield) (ground arith)
    yields (some t) e = rw (e, thread_yield) (ground (arith, schedule-same (to_tail t k)))

yield-IsTimed : (k : Kernel) → IsTimed k → IsTimed (thread_yield k).1
yield-IsTimed k i =
    let s = yield-Same k in
    record {
      scheduled = thread_yield-IsScheduled k i.scheduled;
      owned = λ m t e. ground (arith, s.thread, s.timer, i.owned m t);
      pending = λ m t e h. ground (arith, s.thread, s.timer, s.timer_list, i.pending m t);
      distinct = ground (arith, s.timer_list, i.distinct);
    }

count_slice-IsTimed : (t : ℕ) (k : Kernel) → IsTimed k → IsTimed (count_slice t k)
unfolding count_slice
count_slice-IsTimed t k i =
    IsTimed-if _ (λ e. yield-IsTimed _ (sliced-IsTimed t (k.thread t).init_tick k i))
      (sliced-IsTimed t _ k i)

count_slice-timers :
    (t : ℕ) (k : Kernel)
    → let k' = count_slice t k in
      (k'.timer ≡ k.timer) × (k'.timer_list ≡ k.timer_list) × (k'.tick ≡ k.tick)
unfolding count_slice
count_slice-timers t k = ground (
  arith,
  yield-Same (set_thread t (record (k.thread t) { remaining_tick = (k.thread t).init_tick }) k),
)

-- The state at the new tick.
abbrev pub ticked : Kernel → Kernel
ticked k = record k { tick = (k.tick + 1) % 2 ^ 32 }

ticked-IsTimed : (k : Kernel) → IsTimed k → IsTimed (ticked k)
ticked-IsTimed k i = record {
  scheduled = SameQueues-IsScheduled (ground arith) i.scheduled;
  owned = i.owned;
  pending = i.pending;
  distinct = i.distinct;
}

tick_increase-runs :
    (app : ℕ → ℕ → Kernel → Kernel) (fuel t : ℕ) (k : Kernel)
    → k.current_thread ≡ some t
    → tick_increase app fuel k ≡ timer_check (run_timeout app) fuel (count_slice t (ticked k))
unfolding tick_increase
tick_increase-runs app fuel t k current = ground (arith, current)

-- `rt_tick_increase` in a consistent state with a running thread, with functions of the
-- application's timers that keep the state consistent and leave the timers alone, with periodic
-- timers of at least one tick and below half the range, and with more fuel than timers are due at
-- the new tick: it returns, the state is consistent again, and the first of the timers that still
-- run is not due.
pub tick_increase-ends :
    (app : ℕ → ℕ → Kernel → Kernel)
    → IsQuiet app
    → (fuel t : ℕ) (k : Kernel) → k.current_thread ≡ some t
    → IsTimed k
    → HasPeriods k
    → due_in (ticked k) < fuel
    → (k' : Kernel) × (tick_increase app fuel k ≡ some k')
      × IsTimed k'
      × HasPeriods k'
      × (next_due k'.tick k' ≡ none)
tick_increase-ends app quiet fuel t k current i h few =
    let (timer, row, tick) = count_slice-timers t (ticked k) in
    rw (tick_increase-runs app fuel t k current) (
      timer_check-ends app quiet fuel (count_slice t (ticked k))
        (count_slice-IsTimed t (ticked k) (ticked-IsTimed k i))
        (record {
          tick_fits = ground (arith, tick);
          not_zero = λ m e. ground (arith, timer, h.not_zero m);
          below = λ m e. ground (arith, timer, h.below m);
        })
        (rw (timer, row, tick) few))
