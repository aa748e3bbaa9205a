-- ===== src/Scheduler/Highest.antt =====
-- `rt_schedule` runs the first of the ready threads of the best priority.
use lltrisc_v.Prelude.{
  ℕ, zero, suc, ◌≤◌, ◌<◌, ◌≡◌, ◌≢◌, refl, ap, sym, ◌∙◌, true, false, not, List, [], ◌∷◌, some,
  arith, is_empty, mem,
}
use lltrisc_v.Bits.{test_bit}
use lltrisc_v.Bits.Ffs.{rt_ffs-first}
use lltrisc_v.Kernel.State.{Kernel, has_stat, thread_ready}
use lltrisc_v.Scheduler.{schedule, dispatch, highest_ready_priority}
use lltrisc_v.Scheduler.Invariant.{IsScheduled}

pub zero_bits : (p : ℕ) → test_bit 0 p ≡ false
unfolding test_bit
zero_bits zero = refl
zero_bits (suc p) = zero_bits p

-- Some thread is ready.
pub record IsRunnable (k : Kernel) : Type 0 where
  pub ready : ℕ
  pub is_ready : has_stat thread_ready (k.thread ready) ≡ true

nil_of_empty : (xs : List ℕ) → not (is_empty xs) ≡ false → xs ≡ []
nil_of_empty [] h = refl
nil_of_empty (x ∷ xs) h = cc

cons_of_nonempty :
    (xs : List ℕ) → not (is_empty xs) ≡ true → (x : ℕ) × (rest : List ℕ) × (xs ≡ x ∷ rest)
cons_of_nonempty [] h = cc
cons_of_nonempty (x ∷ xs) h = (x, xs, refl)

pub nonempty_of_mem : (a : ℕ) (xs : List ℕ) → mem a xs ≡ true → not (is_empty xs) ≡ true
nonempty_of_mem a [] h = cc
nonempty_of_mem a (x ∷ xs) h = refl

-- The first thread of the best priority, and what the scheduler computed to find it.
pub record Best (k : Kernel) : Type 0 where
  pub priority : ℕ
  pub thread : ℕ
  pub others : List ℕ
  pub computed : highest_ready_priority k ≡ priority
  pub below_32 : priority < 32
  pub queue : k.priority_table priority ≡ thread ∷ others
  pub better : (p : ℕ) → p < priority → k.priority_table p ≡ []

module _ (k : Kernel) (i : IsScheduled k) (r : IsRunnable k) where
  ready-bit : test_bit k.ready_group (k.thread r.ready).current_priority ≡ true
  ready-bit = ground (
    arith,
    r.is_ready,
    i.group (k.thread r.ready).current_priority,
    i.queued r.ready (k.thread r.ready).current_priority,
    nonempty_of_mem r.ready (k.priority_table (k.thread r.ready).current_priority),
  )

  group-ne-zero : k.ready_group ≢ 0
  group-ne-zero e =
      let p = (k.thread r.ready).current_priority in
      cc (zero_bits p, ap (λ g. test_bit g p) e, ready-bit)

  pub highest_ready_priority-Best : Best k
  unfolding highest_ready_priority
  highest_ready_priority-Best =
      let (b, e, fits, set, clear) = rt_ffs-first k.ready_group i.fits group-ne-zero in
      let (t, rest, q) = cons_of_nonempty (k.priority_table b) (sym (i.group b) ∙ set) in
      record {
        priority = b;
        thread = t;
        others = rest;
        computed = omega arith;
        below_32 = fits;
        queue = q;
        better = λ p h. nil_of_empty (k.priority_table p) (sym (i.group p) ∙ clear p h);
      }

-- What a call of the scheduler may change: who runs, and the requests to switch.
pub record SameButCurrent (k l : Kernel) : Type 0 where
  pub thread : l.thread ≡ k.thread
  pub timer : l.timer ≡ k.timer
  pub priority_table : l.priority_table ≡ k.priority_table
  pub ready_group : l.ready_group ≡ k.ready_group
  pub suspend_list : l.suspend_list ≡ k.suspend_list
  pub timer_list : l.timer_list ≡ k.timer_list
  pub fired_list : l.fired_list ≡ k.fired_list
  pub lock_nest : l.lock_nest ≡ k.lock_nest
  pub tick : l.tick ≡ k.tick

dispatch-same : (p : ℕ) (q : List ℕ) (k : Kernel) → SameButCurrent k (dispatch p q k)
unfolding dispatch
dispatch-same p [] k = ground arith
dispatch-same p (t ∷ rest) k = ground arith

pub schedule-same : (k : Kernel) → SameButCurrent k (schedule k)
unfolding schedule
schedule-same k = ground (
  arith,
  dispatch-same (highest_ready_priority k) (k.priority_table (highest_ready_priority k)) k,
)

-- The parts of the state on which the invariant depends.
pub record SameQueues (k l : Kernel) : Type 0 where
  pub thread : l.thread ≡ k.thread
  pub priority_table : l.priority_table ≡ k.priority_table
  pub ready_group : l.ready_group ≡ k.ready_group
  pub suspend_list : l.suspend_list ≡ k.suspend_list

pub SameQueues-IsScheduled : {k l : Kernel} → SameQueues k l → IsScheduled k → IsScheduled l
SameQueues-IsScheduled {k} {l} s i = record {
  fits = ground (arith, s.ready_group, i.fits);
  group = λ p. ground (arith, i.group p);
  queued = λ t p. ground (arith, i.queued t p);
  once = λ p. ground (arith, i.once p);
  masks = λ t h. ground (arith, i.masks t);
  waiting = λ t o h. ground (arith, i.waiting t o);
  waiting_once = λ o. ground (arith, i.waiting_once o);
}

pub schedule-SameQueues : (k : Kernel) → SameQueues k (schedule k)
schedule-SameQueues k = ground (arith, schedule-same k)

pub schedule-IsScheduled : (k : Kernel) → IsScheduled k → IsScheduled (schedule k)
schedule-IsScheduled k i = SameQueues-IsScheduled (schedule-SameQueues k) i

module _ (k : Kernel) (i : IsScheduled k) (b : Best k) where
  pub best-ready :
      (has_stat thread_ready (k.thread b.thread) ≡ true)
      × ((k.thread b.thread).current_priority ≡ b.priority)
  best-ready = ground (arith, b.queue, i.queued b.thread b.priority, ap (mem b.thread) b.queue)

  pub best-least :
      (u : ℕ)
      → has_stat thread_ready (k.thread u) ≡ true
      → b.priority ≤ (k.thread u).current_priority
  best-least u h =
      ground
        (arith, i.queued u (k.thread u).current_priority, b.better (k.thread u).current_priority)

-- In a consistent state with a ready thread and the scheduler unlocked, `rt_schedule` makes a ready
-- thread current whose priority no ready thread beats and which is the first in the queue of its
-- priority; nothing undefined happens.
pub schedule-highest :
    (k : Kernel)
    → IsScheduled k
    → IsRunnable k
    → k.lock_nest ≡ 0
    → (t : ℕ) × (rest : List ℕ) × ((schedule k).current_thread ≡ some t)
      × (k.priority_table (k.thread t).current_priority ≡ t ∷ rest)
      × (has_stat thread_ready (k.thread t) ≡ true)
      × ((u : ℕ)
          → has_stat thread_ready (k.thread u) ≡ true
          → (k.thread t).current_priority ≤ (k.thread u).current_priority)
      × ((schedule k).fault ≡ k.fault)
unfolding schedule dispatch
schedule-highest k i r unlocked = (
  b.thread,
  b.others,
  ground (arith, b.computed, b.queue),
  ap k.priority_table (best-ready k i b).1 ∙ b.queue,
  (best-ready k i b).0,
  λ u h. ground (arith, best-least k i b u, best-ready k i b),
  ground (arith, b.computed, b.queue),
)
  where
    b : Best k
    b = highest_ready_priority-Best k i r
