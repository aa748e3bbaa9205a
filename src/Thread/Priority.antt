-- ===== src/Thread/Priority.antt =====
-- `rt_thread_control` with RT_THREAD_CTRL_CHANGE_PRIORITY.
use lltrisc_v.Prelude.{ℕ, ◌<◌, ◌≡◌, fun_ext, true, false, arith, Bool-cases, inl, inr}
use lltrisc_v.Kernel.State.{Kernel, has_stat, thread_ready, thread_suspend}
use lltrisc_v.Kernel.Lists.{set_thread}
use lltrisc_v.Scheduler.{insert_thread, remove_thread}
use lltrisc_v.Scheduler.Invariant.{
  IsScheduled, IsStartable, insert_thread-IsScheduled, retire, retire-IsScheduled, retire-alone,
}
use lltrisc_v.Scheduler.Highest.{SameQueues, SameQueues-IsScheduled}
use lltrisc_v.Thread.{change_priority, with_priority}
use lltrisc_v.Thread.Lifecycle.{set_thread-IsScheduled, mask_of-pow}

module _ (k : Kernel) (t p : ℕ) (i : IsScheduled k) (small : p < 32) where
  -- The queues between removal and insertion, with the thread marked as suspended meanwhile.
  abbrev parked : Kernel
  parked = let k1 = retire thread_suspend t k in set_thread t (with_priority p (k1.thread t)) k1

  module _ (ready : has_stat thread_ready (k.thread t) ≡ true) where
    retired-stat : has_stat thread_suspend ((retire thread_suspend t k).thread t) ≡ true
    unfolding remove_thread
    retired-stat = ground arith

    parked-IsScheduled : IsScheduled parked
    parked-IsScheduled =
        set_thread-IsScheduled (retire thread_suspend t k) t
          (with_priority p ((retire thread_suspend t k).thread t))
          (retire-IsScheduled k thread_suspend t i (ground arith) (omega arith) (omega arith)
            (omega arith))
          (ground (arith, retired-stat)) retired-stat (mask_of-pow p small) small

    parked-IsStartable : IsStartable parked t
    parked-IsStartable = record {
      idle = ground (arith, retired-stat);
      mask = ground (arith, mask_of-pow p small);
      priority = ground (arith, small);
      alone =
          retire-alone k thread_suspend t i (ground arith) (omega arith) (omega arith)
            (omega arith);
    }

    moved : SameQueues (insert_thread t parked) (change_priority t p k)
    unfolding change_priority insert_thread remove_thread
    moved = record {
      thread = fun_ext (λ u. ground arith);
      priority_table = ground arith;
      ready_group = ground arith;
      suspend_list = ground arith;
    }

  waiting_priority :
      has_stat thread_ready (k.thread t) ≡ false
      → IsScheduled (set_thread t (with_priority p (k.thread t)) k)
  waiting_priority idle = record {
    fits = i.fits;
    group = i.group;
    queued = λ u q. ground (arith, i.queued u q);
    once = i.once;
    masks = λ u h. ground (arith, i.masks u, mask_of-pow p small);
    waiting = λ u o m. ground (arith, i.waiting u o);
    waiting_once = i.waiting_once;
  }

  -- A change of priority keeps the queues consistent, for a ready thread and for any other, if
  -- the new priority is below 32.
  pub change_priority-IsScheduled : IsScheduled (change_priority t p k)
  unfolding change_priority
  change_priority-IsScheduled = elim (Bool-cases (has_stat thread_ready (k.thread t))) [
    | inl e ↦
        SameQueues-IsScheduled (moved e)
          (insert_thread-IsScheduled parked t (parked-IsScheduled e) (parked-IsStartable e))
    | inr e ↦ rw e (waiting_priority e)
  ]
