-- ===== src/Thread/Invariant.antt =====
-- Every function of os/rt-thread-nano/src/thread.c keeps the ready queues consistent.
use lltrisc_v.Prelude.{
  ℕ, ◌≡◌, true, false, arith, mem, remove, mem-remove_self, mem-remove_ne, nodup-remove,
  remove_absent, Bool-cases, inl, inr,
}
use lltrisc_v.Kernel.State.{Kernel, has_stat, thread_ready, thread_suspend}
use lltrisc_v.Kernel.Lists.{unlink}
use lltrisc_v.Scheduler.Invariant.{
  IsScheduled, IsStartable, insert_thread-IsScheduled, retire-IsScheduled,
}
use lltrisc_v.Scheduler.Highest.{SameQueues, SameQueues-IsScheduled}
use lltrisc_v.Timer.{timer_start, timer_stop, timer_control}
use lltrisc_v.Thread.{thread_suspend_call, thread_resume, start_thread_timer}

pub timer_stop-SameQueues : (m : ℕ) (k : Kernel) → SameQueues k (timer_stop m k).1
unfolding timer_stop
timer_stop-SameQueues m k = ground arith

pub start_thread_timer-SameQueues :
    (t tick : ℕ) (k : Kernel) → SameQueues k (start_thread_timer t tick k)
unfolding start_thread_timer timer_start timer_control
start_thread_timer-SameQueues t tick k = ground arith

-- A thread that is not ready stands in no ready queue, and leaving its suspend list changes none.
module _ (k : Kernel) (t : ℕ) (i : IsScheduled k)
    (h : has_stat thread_ready (k.thread t) ≡ false) where
  pub not_queued : (p : ℕ) → remove t (k.priority_table p) ≡ k.priority_table p
  not_queued p = remove_absent t (k.priority_table p) (ground (arith, i.queued t p))

  unlink-waiting :
      (u o : ℕ)
      → mem u (remove t (k.suspend_list o)) ≡ true
      → has_stat thread_suspend (k.thread u) ≡ true
  unlink-waiting u o m = ground (
    arith,
    i.waiting u o,
    i.waiting_once o,
    mem-remove_ne u t (k.suspend_list o),
    mem-remove_self t (k.suspend_list o),
  )

  pub unlink-IsScheduled : IsScheduled (unlink t k)
  unlink-IsScheduled = record {
    fits = i.fits;
    group = λ p. rw (not_queued p) (i.group p);
    queued = λ u p. rw (not_queued p) (i.queued u p);
    once = λ p. rw (not_queued p) (i.once p);
    masks = i.masks;
    waiting = unlink-waiting;
    waiting_once = λ o. nodup-remove t (k.suspend_list o) (i.waiting_once o);
  }

  pub unlink-alone : (o : ℕ) → mem t (remove t (k.suspend_list o)) ≡ false
  unlink-alone o = mem-remove_self t (k.suspend_list o) (i.waiting_once o)

-- `rt_thread_suspend` keeps the queues consistent, whatever the thread's state.
pub thread_suspend-IsScheduled :
    (k : Kernel) (t : ℕ) → IsScheduled k → IsScheduled (thread_suspend_call t k).1
unfolding thread_suspend_call
thread_suspend-IsScheduled k t i = elim (Bool-cases (has_stat thread_ready (k.thread t))) [
  | inl e ↦ rw e (
      SameQueues-IsScheduled (timer_stop-SameQueues _ _) (
        retire-IsScheduled k thread_suspend t i (ground arith) (omega arith) (omega arith)
          (omega arith)))
  | inr e ↦ rw e i
]

resume-IsStartable :
    (k l : Kernel) (t : ℕ)
    → IsScheduled k
    → has_stat thread_suspend (k.thread t) ≡ true
    → SameQueues (unlink t k) l
    → IsStartable l t
resume-IsStartable k l t i h s = record {
  idle = ground arith;
  mask = ground (arith, i.masks t);
  priority = ground (arith, i.masks t);
  alone = λ o. ground (arith, unlink-alone k t i (ground arith) o);
}

-- So does `rt_thread_resume`.
pub thread_resume-IsScheduled :
    (k : Kernel) (t : ℕ) → IsScheduled k → IsScheduled (thread_resume t k).1
unfolding thread_resume
thread_resume-IsScheduled k t i = elim (Bool-cases (has_stat thread_suspend (k.thread t))) [
  | inl e ↦
      let s = timer_stop-SameQueues (k.thread t).thread_timer (unlink t k) in
      rw e (
        insert_thread-IsScheduled _ t
          (SameQueues-IsScheduled s (unlink-IsScheduled k t i (ground arith)))
          (resume-IsStartable k _ t i e s))
  | inr e ↦ rw e i
]
