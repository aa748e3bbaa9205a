-- ===== src/Ipc/Mutex/Inherit.antt =====
-- What a change of the priority of an owner keeps.
use lltrisc_v.Prelude.{
  ℕ, ◌<◌, ◌≡◌, ◌≢◌, refl, true, Option, some, none, arith, ◌==◌, if◌then◌else◌, remove_absent,
  Bool-cases, inl, inr, ltb,
}
use lltrisc_v.Kernel.State.{Kernel, has_stat, stat_of, thread_ready}
use lltrisc_v.Scheduler.{insert_thread, remove_thread}
use lltrisc_v.Scheduler.Invariant.{IsScheduled}
use lltrisc_v.Scheduler.Highest.{SameQueues-IsScheduled}
use lltrisc_v.Thread.{change_priority}
use lltrisc_v.Thread.Priority.{change_priority-IsScheduled}
use lltrisc_v.Ipc.Mutex.{Mutex, inherit, restore}

-- What one change of priority leaves of the rest.
pub record Moved (k : Kernel) (t p : ℕ) (l : Kernel) : Type 0 where
  pub priority : (l.thread t).current_priority ≡ p
  pub stat : (u : ℕ) → stat_of (l.thread u) ≡ stat_of (k.thread u)
  pub error : (u : ℕ) → (l.thread u).error ≡ (k.thread u).error
  pub others : (u : ℕ) → u ≢ t → l.thread u ≡ k.thread u
  pub lists : (o : ℕ) → l.suspend_list o ≡ k.suspend_list o
  pub timers : l.timer_list ≡ k.timer_list
  pub current : l.current_thread ≡ k.current_thread

pub change_priority-Moved :
    (k : Kernel) (t p : ℕ) → IsScheduled k → Moved k t p (change_priority t p k)
unfolding change_priority insert_thread remove_thread
change_priority-Moved k t p i = record {
  priority = ground arith;
  stat = λ u. ground arith;
  error = λ u. ground arith;
  others = λ u h. ground arith;
  lists = λ o. ground (arith, i.waiting t o, remove_absent t (k.suspend_list o));
  timers = ground arith;
  current = ground arith;
}

pub ready_small :
    (k : Kernel) (t : ℕ)
    → IsScheduled k
    → has_stat thread_ready (k.thread t) ≡ true
    → (k.thread t).current_priority < 32
ready_small k t i ready = (i.masks t (ground arith)).1

pub inherit-IsScheduled :
    (m : Mutex) (t : ℕ) (k : Kernel)
    → IsScheduled k
    → has_stat thread_ready (k.thread t) ≡ true
    → IsScheduled (inherit m t k)
unfolding inherit
inherit-IsScheduled m t k i ready = owned m.owner refl
  where
    owned : (o : Option ℕ) → m.owner ≡ o → IsScheduled (inherit m t k)
    owned none e = rw (e, inherit) (SameQueues-IsScheduled (ground arith) i)
    owned (some o) e =
        rw (e, inherit)
          (elim (Bool-cases (ltb (k.thread t).current_priority (k.thread o).current_priority)) [
            | inl l ↦ rw l (
                change_priority-IsScheduled k o (k.thread t).current_priority i
                  (ready_small k t i ready))
            | inr l ↦ rw l i
          ])

pub restore-IsScheduled :
    (m : Mutex) (t : ℕ) (k : Kernel)
    → IsScheduled k
    → m.original_priority < 32
    → IsScheduled (restore m t k)
unfolding restore
restore-IsScheduled m t k i small =
    elim (Bool-cases (m.original_priority == (k.thread t).current_priority)) [
      | inl e ↦ rw e i
      | inr e ↦ rw e (change_priority-IsScheduled k t m.original_priority i small)
    ]

-- After a wait has begun the owner runs at the better one of the two priorities.
pub inherit-Moved :
    (m : Mutex) (t o : ℕ) (k : Kernel)
    → IsScheduled k
    → m.owner ≡ some o
    → let p = (k.thread t).current_priority in
      let q = (k.thread o).current_priority in Moved k o (if ltb p q then p else q) (inherit m t k)
unfolding inherit
inherit-Moved m t o k i e =
    elim (Bool-cases (ltb (k.thread t).current_priority (k.thread o).current_priority)) [
      | inl l ↦ rw (e, l) (change_priority-Moved k o (k.thread t).current_priority i)
      | inr l ↦ rw (e, l) (ground arith)
    ]

pub restore-Moved :
    (m : Mutex) (t : ℕ) (k : Kernel) → IsScheduled k → Moved k t m.original_priority (restore m t k)
unfolding restore
restore-Moved m t k i = elim (Bool-cases (m.original_priority == (k.thread t).current_priority)) [
  | inl e ↦ rw e (ground arith)
  | inr e ↦ rw e (change_priority-Moved k t m.original_priority i)
]
