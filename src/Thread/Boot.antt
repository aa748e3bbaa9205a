-- ===== src/Thread/Boot.antt =====
-- New threads, `_rt_thread_init` of os/rt-thread-nano/src/thread.c.
use lltrisc_v.Prelude.{ℕ, ◌≡◌, true, arith}
use lltrisc_v.Kernel.State.{Kernel, has_stat, thread_init}
use lltrisc_v.Scheduler.Invariant.{IsScheduled}
use lltrisc_v.Timer.{timer_init}
use lltrisc_v.Thread.{thread_init_call}

-- `_rt_thread_init` of a thread that was not started before keeps the queues consistent, and makes a
-- thread that `rt_thread_startup` may start, with its time slice whole.
pub thread_init_call-IsScheduled :
    (k : Kernel) (t priority tick : ℕ)
    → IsScheduled k
    → has_stat thread_init (k.thread t) ≡ true
    → let k' = thread_init_call t priority tick k in
      IsScheduled k'
      × (has_stat thread_init (k'.thread t) ≡ true)
      × ((k'.thread t).init_priority ≡ priority)
      × ((k'.thread t).remaining_tick ≡ (k'.thread t).init_tick)
unfolding thread_init_call timer_init
thread_init_call-IsScheduled k t priority tick i new = (
  record {
    fits = i.fits;
    group = i.group;
    queued = λ u p. ground (arith, i.queued u p);
    once = i.once;
    masks = λ u h. ground (arith, i.masks u);
    waiting = λ u o m. ground (arith, i.waiting u o);
    waiting_once = i.waiting_once;
  },
  ground arith,
  ground arith,
  ground arith,
)
