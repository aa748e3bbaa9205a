-- ===== src/Thread/Lifecycle.antt =====
-- The rest of os/rt-thread-nano/src/thread.c keeps the ready queues consistent: startup, sleep,
-- yield, a change of priority, and the timeout of a wait.
use lltrisc_v.Prelude.{
  ℕ, ◌^◌, ◌<◌, ◌≡◌, ◌≢◌, refl, true, false, not, List, [], ◌∷◌, ◌++◌, Option, some, none, arith,
  ltb, length, is_empty, mem, remove, nodup, mem-remove_self, mem-remove_ne, nodup-remove,
  remove_absent, nodup-snoc, mem-append, Bool-cases, inl, inr,
}
use lltrisc_v.Bits.{pow_mono, test_bit}
use lltrisc_v.Kernel.State.{
  Kernel, Thread, etimeout, has_stat, thread_ready, thread_suspend, thread_init,
}
use lltrisc_v.Kernel.Lists.{set_thread, set_error}
use lltrisc_v.Scheduler.Invariant.{IsScheduled, at_priority, insert_thread-IsScheduled}
use lltrisc_v.Scheduler.Highest.{nonempty_of_mem, SameQueues-IsScheduled, schedule-IsScheduled}
use lltrisc_v.Thread.{
  thread_startup, thread_yield, thread_sleep, timeout, with_priority, mask_of, has_current, to_tail,
}
use lltrisc_v.Thread.Invariant.{
  thread_suspend-IsScheduled, thread_resume-IsScheduled, start_thread_timer-SameQueues,
  unlink-IsScheduled, unlink-alone,
}

pub mask_of-pow : (p : ℕ) → p < 32 → mask_of p ≡ 2 ^ p
mask_of-pow p h = omega (arith, pow_mono p 32 h)

-- A write that leaves a thread outside the ready queues, with a mask that fits its priority.
pub set_thread-IsScheduled :
    (k : Kernel) (t : ℕ) (b : Thread)
    → IsScheduled k
    → has_stat thread_ready (k.thread t) ≡ false
    → has_stat thread_suspend b ≡ true
    → b.number_mask ≡ 2 ^ b.current_priority
    → b.current_priority < 32
    → IsScheduled (set_thread t b k)
set_thread-IsScheduled k t b i idle suspended mask priority = record {
  fits = i.fits;
  group = i.group;
  queued = λ u p. ground (arith, i.queued u p);
  once = i.once;
  masks = λ u h. ground (arith, i.masks u);
  waiting = λ u o m. ground (arith, i.waiting u o);
  waiting_once = i.waiting_once;
}

-- `rt_thread_startup` of an initialized thread whose priority is below 32 keeps the queues consistent.
pub thread_startup-IsScheduled :
    (k : Kernel) (t : ℕ)
    → IsScheduled k
    → has_stat thread_init (k.thread t) ≡ true
    → (k.thread t).init_priority < 32
    → IsScheduled (thread_startup t k).1
unfolding thread_startup
thread_startup-IsScheduled k t i new priority =
    let small = (k.thread t).init_priority in
    let ready = thread_resume-IsScheduled _ t (
      set_thread-IsScheduled k t
        (record (with_priority small (k.thread t)) { stat = thread_suspend }) i (ground arith) refl
        (mask_of-pow small priority) priority) in
    elim (Bool-cases (has_current k.current_thread)) [
      | inl e ↦ rw e (schedule-IsScheduled _ ready)
      | inr e ↦ rw e ready
    ]

-- `rt_thread_sleep` keeps the queues consistent, up to the call of the scheduler and with it.
pub thread_sleep-IsScheduled :
    (k : Kernel) (tick : ℕ) → IsScheduled k → IsScheduled (thread_sleep tick k)
unfolding thread_sleep
thread_sleep-IsScheduled k tick i = sleeps k.current_thread refl
  where
    sleeps : (c : Option ℕ) → k.current_thread ≡ c → IsScheduled (thread_sleep tick k)
    sleeps none e = rw (e, thread_sleep) (SameQueues-IsScheduled (ground arith) i)
    sleeps (some t) e =
        rw (e, thread_sleep)
          (schedule-IsScheduled _ (
            SameQueues-IsScheduled (start_thread_timer-SameQueues t tick _)
              (thread_suspend-IsScheduled k t i)))

-- `rt_thread_timeout` of a suspended thread keeps the queues consistent.
pub timeout-IsScheduled :
    (k : Kernel) (t : ℕ)
    → IsScheduled k
    → has_stat thread_suspend (k.thread t) ≡ true
    → IsScheduled (timeout t k)
unfolding timeout
timeout-IsScheduled k t i h =
    let marked =
      set_thread-IsScheduled k t (record (k.thread t) { error = etimeout }) i (ground arith) h
        (ground (arith, i.masks t)) (ground (arith, i.masks t)) in
    schedule-IsScheduled _ (
      insert_thread-IsScheduled _ t
        (unlink-IsScheduled (set_error t etimeout k) t marked (ground arith))
        (record {
          idle = ground arith;
          mask = ground (arith, i.masks t);
          priority = ground (arith, i.masks t);
          alone = unlink-alone (set_error t etimeout k) t marked (ground arith);
        }))

module _ (k : Kernel) (t : ℕ) (i : IsScheduled k)
    (ready : has_stat thread_ready (k.thread t) ≡ true) where
  not_waiting : (o : ℕ) → remove t (k.suspend_list o) ≡ k.suspend_list o
  not_waiting o = remove_absent t (k.suspend_list o) (ground (arith, i.waiting t o))

  elsewhere :
      (p : ℕ)
      → p ≢ (k.thread t).current_priority
      → remove t (k.priority_table p) ≡ k.priority_table p
  elsewhere p h = remove_absent t (k.priority_table p) (ground (arith, i.queued t p))

  is_empty-snoc : (xs : List ℕ) → is_empty (xs ++ t ∷ []) ≡ false
  is_empty-snoc [] = refl
  is_empty-snoc (x ∷ xs) = refl

  to_tail-group :
      (p : ℕ)
      → test_bit (to_tail t k).ready_group p ≡ not (is_empty ((to_tail t k).priority_table p))
  to_tail-group p = ground (
    arith,
    i.group p,
    elsewhere p,
    is_empty-snoc (remove t (k.priority_table p)),
    i.queued t p,
    ready,
    nonempty_of_mem t (k.priority_table p),
  )

  to_tail-queued :
      (u p : ℕ) → mem u ((to_tail t k).priority_table p) ≡ at_priority (to_tail t k) u p
  to_tail-queued u p = ground (
    arith,
    i.queued u p,
    i.once p,
    mem-append u (remove t (k.priority_table p)) (t ∷ []),
    mem-remove_ne u t (k.priority_table p),
    mem-remove_self t (k.priority_table p),
    elsewhere p,
    ready,
  )

  to_tail-once : (p : ℕ) → nodup ((to_tail t k).priority_table p) ≡ true
  to_tail-once p = ground (
    arith,
    i.once p,
    nodup-remove t (k.priority_table p),
    mem-remove_self t (k.priority_table p),
    nodup-snoc t (remove t (k.priority_table p)),
  )

  pub to_tail-IsScheduled : IsScheduled (to_tail t k)
  to_tail-IsScheduled = record {
    fits = i.fits;
    group = to_tail-group;
    queued = to_tail-queued;
    once = to_tail-once;
    masks = i.masks;
    waiting = λ u o h. ground (arith, i.waiting u o, not_waiting o);
    waiting_once = λ o. ground (arith, i.waiting_once o, not_waiting o);
  }

-- `rt_thread_yield` keeps the queues consistent.
pub thread_yield-IsScheduled : (k : Kernel) → IsScheduled k → IsScheduled (thread_yield k).1
unfolding thread_yield
thread_yield-IsScheduled k i = yields k.current_thread refl
  where
    yields : (c : Option ℕ) → k.current_thread ≡ c → IsScheduled (thread_yield k).1
    yields none e = rw (e, thread_yield) (SameQueues-IsScheduled (ground arith) i)
    yields (some t) e =
        rw (e, thread_yield)
          (elim (Bool-cases (has_stat thread_ready (k.thread t))) [
            | inl ready ↦
                elim (Bool-cases
                  (ltb 1 (length (k.priority_table (k.thread t).current_priority)))) [
                    | inl others ↦
                        rw (ready, others)
                          (schedule-IsScheduled _ (to_tail-IsScheduled k t i ready))
                    | inr alone ↦ rw (ready, alone) i
                  ]
            | inr other ↦ rw other i
          ])
