-- ===== src/Ipc/Mutex/Handover.antt =====
-- `rt_mutex_release` on every branch, and the invariant of the mutex.
use lltrisc_v.Prelude.{
  ℕ, ◌-◌, ◌<◌, ◌≡◌, ◌≢◌, refl, ap, sym, ◌∙◌, true, false, List, [], ◌∷◌, Option, some, none, arith,
  ◌==◌, Bool-cases, inl, inr, ltb,
}
use lltrisc_v.Kernel.State.{Kernel, eok, error, has_stat, thread_ready}
use lltrisc_v.Kernel.Lists.{set_error}
use lltrisc_v.Scheduler.{schedule}
use lltrisc_v.Scheduler.Invariant.{IsScheduled}
use lltrisc_v.Scheduler.Highest.{schedule-IsScheduled, schedule-same}
use lltrisc_v.Thread.{thread_resume}
use lltrisc_v.Thread.Invariant.{thread_resume-IsScheduled}
use lltrisc_v.Ipc.{ipc_list_resume}
use lltrisc_v.Ipc.Suspend.{set_error-IsScheduled, thread_resume-Resumed}
use lltrisc_v.Ipc.Mutex.{Mutex, mutex_release, release_by, hand_over, restore, is_owner}
use lltrisc_v.Ipc.Mutex.Inherit.{restore-IsScheduled, restore-Moved}
use lltrisc_v.Ipc.Mutex.Ownership.{IsMutex}

module _ (m : Mutex) (k : Kernel) where
  hand_nil :
      k.suspend_list m.suspend_thread ≡ []
      → m.value ≡ 0
      → hand_over m k ≡ (eok, record m { value = 1; owner = none; original_priority = 255 }, k)
  unfolding hand_over
  hand_nil e z = ground (arith, e, z)

  hand_cons :
      (u : ℕ) (us : List ℕ)
      → k.suspend_list m.suspend_thread ≡ u ∷ us
      → m.hold ≡ 0
      → hand_over m k ≡ (
        eok,
        record m { owner = some u; original_priority = (k.thread u).current_priority; hold = 1 },
        schedule (ipc_list_resume m.suspend_thread k),
      )
  unfolding hand_over
  hand_cons u us e z = ground (arith, e, z)

not_owner : (t : ℕ) (o : Option ℕ) → o ≢ some t → is_owner t o ≡ false
not_owner t none h = refl
not_owner t (some o) h = ground arith

module _ (m : Mutex) (t : ℕ) (k : Kernel) (i : IsMutex m k) (current : k.current_thread ≡ some t)
    (ready : has_stat thread_ready (k.thread t) ≡ true) where
  foreign_release :
      m.owner ≢ some t
      → let (r, m', k') = mutex_release m k in (r ≡ error) × (m' ≡ m) × (k' ≡ set_error t error k)
  unfolding mutex_release release_by
  foreign_release h = ground (arith, current, not_owner t m.owner h)

  again_release :
      m.owner ≡ some t
      → 1 < m.hold
      → let (r, m', k') = mutex_release m k in
        (r ≡ eok) × (m' ≡ record m { hold = m.hold - 1 }) × (k' ≡ k)
  unfolding mutex_release release_by
  again_release e h = ground (arith, current, i.held t e)

  abbrev unheld : Mutex
  unheld = record m { hold = 0 }

  abbrev restored : Kernel
  restored = restore unheld t k

  last_release : m.owner ≡ some t → m.hold ≡ 1 → mutex_release m k ≡ hand_over unheld restored
  unfolding mutex_release release_by
  last_release e one = ground (arith, current)

  free_release :
      m.owner ≡ some t
      → m.hold ≡ 1
      → k.suspend_list m.suspend_thread ≡ []
      → mutex_release m k
        ≡ (eok, record m { value = 1; owner = none; original_priority = 255; hold = 0 }, restored)
  free_release e one nobody =
      let mv = restore-Moved unheld t k i.scheduled in
      last_release e one
      ∙ hand_nil unheld restored (mv.lists m.suspend_thread ∙ nobody) (i.held t e).0

  restored-IsScheduled : m.owner ≡ some t → IsScheduled restored
  restored-IsScheduled e = restore-IsScheduled unheld t k i.scheduled (ground (arith, i.held t e))

  waiter : (u : ℕ) (us : List ℕ) → k.suspend_list m.suspend_thread ≡ u ∷ us → u ≢ t
  waiter u us e = ground (arith, i.scheduled.waiting u m.suspend_thread, ready)

  waiter_small :
      (u : ℕ) (us : List ℕ)
      → k.suspend_list m.suspend_thread ≡ u ∷ us
      → (k.thread u).current_priority < 32
  waiter_small u us e =
      (i.scheduled.masks u (ground (arith, i.scheduled.waiting u m.suspend_thread))).1

  next_release :
      (u : ℕ) (us : List ℕ)
      → m.owner ≡ some t
      → m.hold ≡ 1
      → k.suspend_list m.suspend_thread ≡ u ∷ us
      → mutex_release m k ≡ (
        eok,
        record m { owner = some u; original_priority = (k.thread u).current_priority; hold = 1 },
        schedule (thread_resume u restored).1,
      )
  unfolding ipc_list_resume
  next_release u us e one there =
      let mv = restore-Moved unheld t k i.scheduled in
      let list = mv.lists m.suspend_thread ∙ there in
      last_release e one
      ∙ hand_cons unheld restored u us list refl
      ∙ ground (arith, list, mv.others u (waiter u us there))

  given_release :
      (u : ℕ) (us : List ℕ)
      → m.owner ≡ some t
      → m.hold ≡ 1
      → k.suspend_list m.suspend_thread ≡ u ∷ us
      → let (r, m', k') = mutex_release m k in
        (r ≡ eok)
        × (m' ≡ record m {
          owner = some u;
          original_priority = (k.thread u).current_priority;
          hold = 1;
        })
        × (k'.suspend_list m.suspend_thread ≡ us)
        × (has_stat thread_ready (k'.thread u) ≡ true)
        × ((k'.thread t).current_priority ≡ m.original_priority)
  given_release u us e one there =
      let mv = restore-Moved unheld t k i.scheduled in
      let list = mv.lists m.suspend_thread ∙ there in
      let s = restored-IsScheduled e in
      let r = thread_resume-Resumed restored m.suspend_thread u us s list in
      let q = schedule-same (thread_resume u restored).1 in
      rw (next_release u us e one there) (
        refl,
        refl,
        ap (λ f. f m.suspend_thread) q.suspend_list ∙ r.list,
        ground (arith, q.thread, r.ready),
        ap (λ f. (f t).current_priority) q.thread
            ∙ ap (λ b. b.current_priority) (r.others t (λ f. waiter u us there (sym f)))
            ∙ mv.priority,
      )

  -- `rt_mutex_release` by the running thread, which is ready, of a mutex in its invariant: only
  -- the owner may; it gives up one hold; with the last one it gets its noted priority back, and
  -- the mutex goes to the first thread that waits, which becomes ready, or else is free.
  pub mutex_release-cases :
      let (r, m', k') = mutex_release m k in
      (m.owner ≢ some t → (r ≡ error) × (m' ≡ m) × (k' ≡ set_error t error k))
      × (m.owner ≡ some t
          → 1 < m.hold
          → (r ≡ eok) × (m' ≡ record m { hold = m.hold - 1 }) × (k' ≡ k))
      × (m.owner ≡ some t
          → m.hold ≡ 1
          → k.suspend_list m.suspend_thread ≡ []
          → (r ≡ eok)
            × (m' ≡ record m { value = 1; owner = none; original_priority = 255; hold = 0 })
            × ((k'.thread t).current_priority ≡ m.original_priority))
      × ((u : ℕ) (us : List ℕ)
          → m.owner ≡ some t
          → m.hold ≡ 1
          → k.suspend_list m.suspend_thread ≡ u ∷ us
          → (r ≡ eok)
            × (m' ≡ record m {
              owner = some u;
              original_priority = (k.thread u).current_priority;
              hold = 1;
            })
            × (k'.suspend_list m.suspend_thread ≡ us)
            × (has_stat thread_ready (k'.thread u) ≡ true)
            × ((k'.thread t).current_priority ≡ m.original_priority))
  mutex_release-cases = (
    foreign_release,
    λ e h. again_release e h,
    λ e one none_waits.
        let mv = restore-Moved (record m { hold = 0 }) t k i.scheduled in
        rw (free_release e one none_waits) (refl, refl, mv.priority),
    λ u us e one there. given_release u us e one there,
  )

  -- `rt_mutex_release` by the running thread, which is ready, keeps the invariant of the mutex on
  -- every branch: a free mutex has no owner, no hold and no thread that waits; an owned one has no
  -- value left, from 1 to 255 holds and a priority to give back.
  pub mutex_release-IsMutex : let r = mutex_release m k in IsMutex r.1 r.2
  mutex_release-IsMutex = owned m.owner refl
    where
      last :
          (ts : List ℕ)
          → m.owner ≡ some t
          → m.hold ≡ 1
          → k.suspend_list m.suspend_thread ≡ ts
          → let r = mutex_release m k in IsMutex r.1 r.2
      last [] e one l = rw (free_release e one l) (record {
        scheduled = restored-IsScheduled e;
        free = λ _. (refl, refl, (restore-Moved unheld t k i.scheduled).lists m.suspend_thread ∙ l);
        held = λ o f. cc;
      })
      last (u ∷ us) e one l = rw (next_release u us e one l) (record {
        scheduled =
            schedule-IsScheduled _ (thread_resume-IsScheduled restored u (restored-IsScheduled e));
        free = λ f. cc;
        held = λ o f. ((i.held t e).0, omega arith, omega arith, waiter_small u us l);
      })

      mine : m.owner ≡ some t → let r = mutex_release m k in IsMutex r.1 r.2
      mine e = elim (Bool-cases (ltb 1 m.hold)) [
        | inl h ↦
            let (_, new, state) = again_release e (ground arith) in
            rw (new, state)
              (record {
                scheduled = i.scheduled;
                free = λ f. cc;
                held = λ o q. ground (arith, i.held o q);
              })
        | inr h ↦ last (k.suspend_list m.suspend_thread) e (ground (arith, i.held t e)) refl
      ]

      other : m.owner ≢ some t → let r = mutex_release m k in IsMutex r.1 r.2
      other h =
          let (_, new, state) = foreign_release h in
          rw (new, state)
            (record {
              scheduled = set_error-IsScheduled k t error i.scheduled;
              free = i.free;
              held = i.held;
            })

      owned : (o : Option ℕ) → m.owner ≡ o → let r = mutex_release m k in IsMutex r.1 r.2
      owned none e = other (λ f. cc)
      owned (some o) e = elim (Bool-cases (o == t)) [
        | inl q ↦ mine (ground arith)
        | inr q ↦ other (λ f. ground arith)
      ]
