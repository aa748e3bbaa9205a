-- ===== src/Scheduler/Boot.antt =====
-- From `rt_system_scheduler_init` to `rt_system_scheduler_start`.
use lltrisc_v.Prelude.{
  ℕ, ◌≤◌, ◌≡◌, ap, sym, ◌∙◌, true, false, not, List, [], ◌∷◌, some, none, arith, is_empty, mem,
  nodup,
}
use lltrisc_v.Kernel.State.{Kernel, has_stat, thread_ready, thread_init}
use lltrisc_v.Scheduler.{
  scheduler_init, scheduler_start, start_with, highest_ready_priority, thread_priority_max,
}
use lltrisc_v.Scheduler.Invariant.{IsScheduled, at_priority}
use lltrisc_v.Scheduler.Highest.{
  IsRunnable, highest_ready_priority-Best, best-ready, best-least, SameQueues,
  SameQueues-IsScheduled, zero_bits,
}

-- No thread was started, and no list head outside the table of `scheduler_init` holds one.
pub record IsBlank (k : Kernel) : Type 0 where
  pub new : (t : ℕ) → has_stat thread_init (k.thread t) ≡ true
  pub outside : (p : ℕ) → thread_priority_max ≤ p → k.priority_table p ≡ []
  pub no_waiter : (o : ℕ) → k.suspend_list o ≡ []

module _ (k : Kernel) (b : IsBlank k) where
  empty_table : (p : ℕ) → (scheduler_init k).priority_table p ≡ []
  unfolding scheduler_init
  empty_table p = ground (arith, b.outside p)

  not_ready : (t p : ℕ) → at_priority (scheduler_init k) t p ≡ false
  unfolding scheduler_init
  not_ready t p = ground (arith, b.new t)

  -- `rt_system_scheduler_init` makes the queues consistent, whatever the words of the scheduler held,
  -- if no thread was started before.
  pub scheduler_init-IsScheduled : IsScheduled (scheduler_init k)
  unfolding scheduler_init
  scheduler_init-IsScheduled = record {
    fits = omega arith;
    group = λ p. zero_bits p ∙ sym (ap (λ q. not (is_empty q)) (empty_table p));
    queued = λ t p. ap (mem t) (empty_table p) ∙ sym (not_ready t p);
    once = λ p. ap nodup (empty_table p);
    masks = λ t h. ground (arith, b.new t);
    waiting = λ t o h. ground (arith, b.no_waiter o);
    waiting_once = λ o. ap nodup (b.no_waiter o);
  }

start_with-SameQueues : (q : List ℕ) (k : Kernel) → SameQueues k (start_with q k)
unfolding start_with
start_with-SameQueues [] k = ground arith
start_with-SameQueues (t ∷ q) k = ground arith

scheduler_start-SameQueues : (k : Kernel) → SameQueues k (scheduler_start k)
unfolding scheduler_start
scheduler_start-SameQueues k = start_with-SameQueues (k.priority_table (highest_ready_priority k)) k

-- `rt_system_scheduler_start` keeps the queues consistent.
pub scheduler_start-IsScheduled : (k : Kernel) → IsScheduled k → IsScheduled (scheduler_start k)
scheduler_start-IsScheduled k i = SameQueues-IsScheduled (scheduler_start-SameQueues k) i

-- In a consistent state with a ready thread, `rt_system_scheduler_start` enters a ready thread that
-- no ready thread beats in priority, from no thread.
pub scheduler_start-highest :
    (k : Kernel)
    → IsScheduled k
    → IsRunnable k
    → (t : ℕ) × ((scheduler_start k).current_thread ≡ some t)
      × ((scheduler_start k).switches ≡ record { from = none; to = t } ∷ k.switches)
      × (has_stat thread_ready (k.thread t) ≡ true)
      × ((u : ℕ)
          → has_stat thread_ready (k.thread u) ≡ true
          → (k.thread t).current_priority ≤ (k.thread u).current_priority)
unfolding scheduler_start start_with
scheduler_start-highest k i r =
    let b = highest_ready_priority-Best k i r in
    (
      b.thread,
      ground (arith, b.computed, b.queue),
      ground (arith, b.computed, b.queue),
      (best-ready k i b).0,
      λ u h. ground (arith, best-least k i b u, best-ready k i b),
    )
