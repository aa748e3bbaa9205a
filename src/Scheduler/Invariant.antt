-- ===== src/Scheduler/Invariant.antt =====
-- The ready queues: what holds of them between any two calls, and what `insert_thread` and
-- `remove_thread` make of it.
use lltrisc_v.Prelude.{
  ℕ, ◌+◌, ◌-◌, ◌*◌, ◌/◌, ◌%◌, ◌^◌, ◌<◌, ◌≡◌, ◌≢◌, refl, Bool, true, false, not, ◌&&◌, List, [], ◌∷◌,
  ◌++◌, arith, ◌==◌, is_empty, mem, remove, nodup, mem-append, mem-remove_ne, mem-remove_self,
  nodup-remove, nodup-snoc, remove_absent,
}
use lltrisc_v.Bits.{test_bit, test_bit-or, test_bit-and, and-le, or-lt}
use lltrisc_v.Kernel.State.{Kernel, with_stat, has_stat, thread_ready, thread_suspend, thread_init}
use lltrisc_v.Kernel.Lists.{set_thread}
use lltrisc_v.Scheduler.{insert_thread, remove_thread}

-- Where a thread that is ready stands.
abbrev pub at_priority : Kernel → ℕ → ℕ → Bool
at_priority k t p = has_stat thread_ready (k.thread t) && ((k.thread t).current_priority == p)

-- A bit of the group is set exactly when its queue holds a thread; a thread is in the queue of its
-- priority exactly when it is ready, once; a thread that was started carries the mask of its
-- priority; a thread that waits in a suspend list is suspended, and stands in that list once.
pub record IsScheduled (k : Kernel) : Type 0 where
  pub fits : k.ready_group < 2 ^ 32
  pub group : (p : ℕ) → test_bit k.ready_group p ≡ not (is_empty (k.priority_table p))
  pub queued : (t p : ℕ) → mem t (k.priority_table p) ≡ at_priority k t p
  pub once : (p : ℕ) → nodup (k.priority_table p) ≡ true
  pub masks :
      (t : ℕ)
      → has_stat thread_init (k.thread t) ≡ false
      → ((k.thread t).number_mask ≡ 2 ^ (k.thread t).current_priority)
        × ((k.thread t).current_priority < 32)
  pub waiting :
      (t o : ℕ) → mem t (k.suspend_list o) ≡ true → has_stat thread_suspend (k.thread t) ≡ true
  pub waiting_once : (o : ℕ) → nodup (k.suspend_list o) ≡ true

is_empty-snoc : (t : ℕ) (xs : List ℕ) → is_empty (xs ++ t ∷ []) ≡ false
is_empty-snoc t [] = refl
is_empty-snoc t (x ∷ xs) = refl

-- A thread outside the queues, with its mask set.
pub record IsStartable (k : Kernel) (t : ℕ) : Type 0 where
  pub idle : has_stat thread_ready (k.thread t) ≡ false
  pub mask : (k.thread t).number_mask ≡ 2 ^ (k.thread t).current_priority
  pub priority : (k.thread t).current_priority < 32
  pub alone : (o : ℕ) → mem t (k.suspend_list o) ≡ false

module _ (k : Kernel) (t : ℕ) (i : IsScheduled k) (s : IsStartable k t) where
  insert-fits : (insert_thread t k).ready_group < 2 ^ 32
  unfolding insert_thread
  insert-fits = rw s.mask (or-lt 32 (k.thread t).current_priority k.ready_group s.priority i.fits)

  insert-group :
      (p : ℕ)
      → test_bit (insert_thread t k).ready_group p
        ≡ not (is_empty ((insert_thread t k).priority_table p))
  unfolding insert_thread
  insert-group p = rw s.mask (
      ground (
        arith,
        test_bit-or (k.thread t).current_priority p k.ready_group,
        is_empty-snoc t (k.priority_table p),
        i.group p,
      ))

  insert-queued :
      (u p : ℕ) → mem u ((insert_thread t k).priority_table p) ≡ at_priority (insert_thread t k) u p
  unfolding insert_thread
  insert-queued u p =
      ground (arith, i.queued u p, s.idle, mem-append u (k.priority_table p) (t ∷ []))

  insert-once : (p : ℕ) → nodup ((insert_thread t k).priority_table p) ≡ true
  unfolding insert_thread
  insert-once p = ground (arith, i.once p, i.queued t p, s.idle, nodup-snoc t (k.priority_table p))

  pub insert_thread-IsScheduled : IsScheduled (insert_thread t k)
  unfolding insert_thread
  insert_thread-IsScheduled = record {
    fits = insert-fits;
    group = insert-group;
    queued = insert-queued;
    once = insert-once;
    masks = λ u h. ground (arith, i.masks u, s.mask, s.priority);
    waiting = λ u o h. ground (arith, i.waiting u o, s.alone o);
    waiting_once = i.waiting_once;
  }

-- `rt_schedule_remove_thread`, and the write of the thread's new state that follows it.
abbrev pub retire : ℕ → ℕ → Kernel → Kernel
retire value t k = let k' = remove_thread t k in set_thread t (with_stat value (k'.thread t)) k'

module _ (k : Kernel) (value t : ℕ) (i : IsScheduled k)
    (started : has_stat thread_init (k.thread t) ≡ false) (small : value < 16)
    (retired : value ≢ thread_ready) (kept : value ≢ thread_init) where
  stat-retired : (value + (k.thread t).stat / 16 * 16) % 16 ≡ value
  stat-retired = omega arith

  retire-fits : (retire value t k).ready_group < 2 ^ 32
  unfolding remove_thread
  retire-fits =
      ground
        (arith, i.fits, and-le k.ready_group k.ready_group (2 ^ 32 - 1 - (k.thread t).number_mask))

  retire-queued :
      (u p : ℕ) → mem u ((retire value t k).priority_table p) ≡ at_priority (retire value t k) u p
  unfolding remove_thread
  retire-queued u p = ground (
    arith,
    i.queued u p,
    i.once p,
    mem-remove_ne u t (k.priority_table p),
    mem-remove_self t (k.priority_table p),
    stat-retired,
  )

  remove_elsewhere :
      (p : ℕ)
      → p ≢ (k.thread t).current_priority
      → remove t (k.priority_table p) ≡ k.priority_table p
  remove_elsewhere p h = remove_absent t (k.priority_table p) (ground (arith, i.queued t p))

  retire-group :
      (p : ℕ)
      → test_bit (retire value t k).ready_group p
        ≡ not (is_empty ((retire value t k).priority_table p))
  unfolding remove_thread
  retire-group p = rw ((i.masks t started).0) (
      ground (
        arith,
        test_bit-and 32 (k.thread t).current_priority p k.ready_group,
        i.group p,
        i.fits,
        i.masks t started,
        remove_elsewhere p,
      ))

  retire-waiting :
      (u o : ℕ)
      → mem u ((retire value t k).suspend_list o) ≡ true
      → has_stat thread_suspend ((retire value t k).thread u) ≡ true
  unfolding remove_thread
  retire-waiting u o h = ground (
    arith,
    i.waiting u o,
    i.waiting_once o,
    mem-remove_ne u t (k.suspend_list o),
    mem-remove_self t (k.suspend_list o),
  )

  retire-masks :
      (u : ℕ)
      → has_stat thread_init ((retire value t k).thread u) ≡ false
      → (((retire value t k).thread u).number_mask
          ≡ 2 ^ ((retire value t k).thread u).current_priority)
        × (((retire value t k).thread u).current_priority < 32)
  unfolding remove_thread
  retire-masks u h = ground (arith, i.masks u, i.masks t started)

  pub retire-IsScheduled : IsScheduled (retire value t k)
  unfolding remove_thread
  retire-IsScheduled = record {
    fits = retire-fits;
    group = retire-group;
    queued = retire-queued;
    once = λ p. nodup-remove t (k.priority_table p) (i.once p);
    masks = retire-masks;
    waiting = retire-waiting;
    waiting_once = λ o. nodup-remove t (k.suspend_list o) (i.waiting_once o);
  }

  -- What is left of the thread: its new state, and no list that holds it.
  pub retire-alone : (o : ℕ) → mem t ((retire value t k).suspend_list o) ≡ false
  unfolding remove_thread
  retire-alone o = mem-remove_self t (k.suspend_list o) (i.waiting_once o)
