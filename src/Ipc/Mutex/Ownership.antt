-- ===== src/Ipc/Mutex/Ownership.antt =====
-- Who owns a mutex: `rt_mutex_take` and `rt_mutex_release` on every branch, and what both keep.
use lltrisc_v.Prelude.{
  ℕ, ◌+◌, ◌≤◌, ◌<◌, ◌≡◌, ◌≢◌, refl, ap, ◌∙◌, true, [], Option, some, none, arith, ◌==◌,
  if◌then◌else◌, nodup, Bool-cases, inl, inr, ltb,
}
use lltrisc_v.Kernel.State.{Kernel, eok, etimeout, efull, has_stat, thread_ready}
use lltrisc_v.Kernel.Lists.{set_error}
use lltrisc_v.Scheduler.Invariant.{IsScheduled}
use lltrisc_v.Ipc.{returns, waits, wait_in}
use lltrisc_v.Ipc.Suspend.{set_error-IsScheduled, wait_in-IsScheduled}
use lltrisc_v.Ipc.Waiting.{IsFlag, Waits, wait_in-Waits}
use lltrisc_v.Ipc.Mutex.{Mutex, mutex_take, take_by, hold_once, inherit, mutex_hold_max}
use lltrisc_v.Ipc.Mutex.Inherit.{inherit-IsScheduled, inherit-Moved, ready_small}

-- A free mutex is held by nobody and nobody waits for it; an owned one has no value left, is held
-- from 1 to 255 times and knows a priority to give back.
pub record IsMutex (m : Mutex) (k : Kernel) : Type 0 where
  pub scheduled : IsScheduled k
  pub free : m.owner ≡ none → (m.value ≡ 1) × (m.hold ≡ 0) × (k.suspend_list m.suspend_thread ≡ [])
  pub held :
      (o : ℕ)
      → m.owner ≡ some o
      → (m.value ≡ 0) × (0 < m.hold) × (m.hold ≤ mutex_hold_max) × (m.original_priority < 32)

module _ (m : Mutex) (t : ℕ) (k : Kernel) (i : IsMutex m k) (current : k.current_thread ≡ some t)
    (ready : has_stat thread_ready (k.thread t) ≡ true) where
  cleared : IsScheduled (set_error t eok k)
  cleared = set_error-IsScheduled k t eok i.scheduled

  waited :
      (o : ℕ)
      → m.owner ≡ some o
      → has_stat thread_ready ((inherit m t (set_error t eok k)).thread t) ≡ true
  waited o e = ground (arith, (inherit-Moved m t o (set_error t eok k) cleared e).stat t, ready)

  fresh_take :
      (time : ℕ)
      → m.owner ≡ none
      → let (r, m', k') = mutex_take m time k in
        (r ≡ returns eok)
        × (m' ≡ record m {
          value = 0;
          owner = some t;
          original_priority = (k.thread t).current_priority;
          hold = 1;
        })
        × (k' ≡ set_error t eok k)
  unfolding mutex_take take_by hold_once
  fresh_take time e = ground (arith, current, i.free e)

  again_take :
      (time : ℕ)
      → m.owner ≡ some t
      → m.hold < mutex_hold_max
      → let (r, m', k') = mutex_take m time k in
        (r ≡ returns eok) × (m' ≡ record m { hold = m.hold + 1 }) × (k' ≡ set_error t eok k)
  unfolding mutex_take take_by hold_once
  again_take time e h = ground (arith, current)

  full_take :
      (time : ℕ)
      → m.owner ≡ some t
      → m.hold ≡ mutex_hold_max
      → let (r, m', k') = mutex_take m time k in
        (r ≡ returns efull) × (m' ≡ m) × (k' ≡ set_error t eok k)
  unfolding mutex_take take_by hold_once
  full_take time e h = ground (arith, current)

  late_take :
      (time o : ℕ)
      → m.owner ≡ some o
      → o ≢ t
      → time ≡ 0
      → let (r, m', k') = mutex_take m time k in
        (r ≡ returns etimeout) × (m' ≡ m) × (k' ≡ set_error t etimeout (set_error t eok k))
  unfolding mutex_take take_by
  late_take time o e other z = ground (arith, current, i.held o e)

  slow_take :
      (time o : ℕ)
      → m.owner ≡ some o
      → o ≢ t
      → time ≢ 0
      → mutex_take m time k
        ≡ (waits, m, wait_in m.suspend_thread t m.flag time (inherit m t (set_error t eok k)))
  unfolding mutex_take take_by
  slow_take time o e other n = ground (arith, current, i.held o e)

  waiting_take :
      (time : ℕ)
      → nodup k.timer_list ≡ true
      → IsFlag m.flag
      → (o : ℕ) → m.owner ≡ some o
      → o ≢ t
      → time ≢ 0
      → let (r, m', k') = mutex_take m time k in
        (r ≡ waits)
        × (m' ≡ m)
        × ((k'.thread o).current_priority ≡ (
            if ltb (k.thread t).current_priority (k.thread o).current_priority
            then (k.thread t).current_priority
            else (k.thread o).current_priority))
        × Waits (inherit m t (set_error t eok k)) m.suspend_thread t m.flag time k'
  waiting_take time once known o e other n =
      let mv = inherit-Moved m t o (set_error t eok k) cleared e in
      let w =
        wait_in-Waits (inherit m t (set_error t eok k)) m.suspend_thread t m.flag
          (inherit-IsScheduled m t (set_error t eok k) cleared (ground (arith, ready))) (waited o e)
          known time (ap nodup mv.timers ∙ once) in
      rw (slow_take time o e other n) (
        refl,
        refl,
        ap (λ b. b.current_priority) (w.others o other) ∙ mv.priority ∙ ground arith,
        w,
      )

  -- `rt_mutex_take` by the running thread, which is ready, of a mutex in its invariant with one of
  -- the two queueing flags, no timer twice in the row: the thread gets a free mutex, with its
  -- priority noted; its own mutex it holds once more, up to 255 times; another's is a timeout if
  -- the call may not wait, and else the thread is suspended in its place in the list, after the
  -- owner was given its priority if that is better.
  pub mutex_take-cases :
      (time : ℕ)
      → nodup k.timer_list ≡ true
      → IsFlag m.flag
      → let (r, m', k') = mutex_take m time k in
        let k0 = set_error t eok k in
        (m.owner ≡ none
          → (r ≡ returns eok)
            × (m' ≡ record m {
              value = 0;
              owner = some t;
              original_priority = (k.thread t).current_priority;
              hold = 1;
            })
            × (k' ≡ k0))
        × (m.owner ≡ some t
            → m.hold < mutex_hold_max
            → (r ≡ returns eok) × (m' ≡ record m { hold = m.hold + 1 }) × (k' ≡ k0))
        × (m.owner ≡ some t → m.hold ≡ mutex_hold_max → (r ≡ returns efull) × (m' ≡ m) × (k' ≡ k0))
        × ((o : ℕ)
            → m.owner ≡ some o
            → o ≢ t
            → time ≡ 0
            → (r ≡ returns etimeout) × (m' ≡ m) × (k' ≡ set_error t etimeout k0))
        × ((o : ℕ)
            → m.owner ≡ some o
            → o ≢ t
            → time ≢ 0
            → (r ≡ waits)
              × (m' ≡ m)
              × ((k'.thread o).current_priority ≡ (
                  if ltb (k.thread t).current_priority (k.thread o).current_priority
                  then (k.thread t).current_priority
                  else (k.thread o).current_priority))
              × Waits (inherit m t k0) m.suspend_thread t m.flag time k')
  mutex_take-cases time once known = (
    λ e. fresh_take time e,
    λ e h. again_take time e h,
    λ e h. full_take time e h,
    λ o e other z. late_take time o e other z,
    λ o e other n. waiting_take time once known o e other n,
  )

  -- `rt_mutex_take` by the running thread, which is ready, keeps the invariant of the mutex,
  -- whether it succeeds, fails or waits.
  pub mutex_take-IsMutex : (time : ℕ) → let r = mutex_take m time k in IsMutex r.1 r.2
  mutex_take-IsMutex time = owned m.owner refl
    where
      fresh : m.owner ≡ none → let r = mutex_take m time k in IsMutex r.1 r.2
      fresh e =
          let (_, new, state) = fresh_take time e in
          rw (new, state)
            (record {
              scheduled = cleared;
              free = λ f. cc;
              held = λ o q. (refl, omega arith, omega arith, ready_small k t i.scheduled ready);
            })

      same : m.owner ≡ some t → let r = mutex_take m time k in IsMutex r.1 r.2
      same e = elim (Bool-cases (ltb m.hold mutex_hold_max)) [
        | inl h ↦
            let (_, new, state) = again_take time e (ground arith) in
            rw (new, state)
              (record {
                scheduled = cleared;
                free = λ f. cc;
                held = λ o q. ground (arith, i.held o q);
              })
        | inr h ↦
            let (_, new, state) = full_take time e (ground (arith, i.held t e)) in
            rw (new, state) (record { scheduled = cleared; free = λ f. cc; held = i.held })
      ]

      foreign : (o : ℕ) → m.owner ≡ some o → o ≢ t → let r = mutex_take m time k in IsMutex r.1 r.2
      foreign o e other = elim (Bool-cases (time == 0)) [
        | inl z ↦
            let (_, new, state) = late_take time o e other (ground arith) in
            rw (new, state)
              (record {
                scheduled = set_error-IsScheduled _ t etimeout cleared;
                free = λ f. cc;
                held = i.held;
              })
        | inr n ↦ rw (slow_take time o e other (ground arith)) (record {
          scheduled =
              wait_in-IsScheduled _ m.suspend_thread t m.flag time
                (inherit-IsScheduled m t (set_error t eok k) cleared (ground (arith, ready)))
                (waited o e);
          free = λ f. cc;
          held = i.held;
        })
      ]

      owned : (o : Option ℕ) → m.owner ≡ o → let r = mutex_take m time k in IsMutex r.1 r.2
      owned none e = fresh e
      owned (some o) e = elim (Bool-cases (o == t)) [
        | inl q ↦ same (ground arith)
        | inr q ↦ foreign o e (ground arith)
      ]
