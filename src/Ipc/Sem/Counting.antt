-- ===== src/Ipc/Sem/Counting.antt =====
-- `rt_sem_take` and `rt_sem_release` on every branch, and the counting invariant.
use lltrisc_v.Prelude.{
  ℕ, ◌+◌, ◌-◌, ◌%◌, ◌^◌, ◌≤◌, ◌<◌, ◌≡◌, ◌≢◌, refl, ap, ◌∙◌, true, false, List, [], ◌∷◌, ◌++◌, some,
  arith, ◌==◌, is_empty, mem, nodup, Bool-cases, inl, inr, ltb,
}
use lltrisc_v.Kernel.State.{Kernel, eok, error, etimeout, efull, has_stat, thread_ready}
use lltrisc_v.Kernel.Lists.{set_error}
use lltrisc_v.Scheduler.{schedule}
use lltrisc_v.Scheduler.Invariant.{IsScheduled}
use lltrisc_v.Scheduler.Highest.{schedule-IsScheduled, schedule-same}
use lltrisc_v.Thread.{thread_resume}
use lltrisc_v.Ipc.{returns, waits, ipc_list_resume, ipc_list_resume_all, wait_in}
use lltrisc_v.Ipc.Suspend.{
  ipc_list_resume_all-AllResumed, set_error-IsScheduled, wait_in-IsScheduled,
  ipc_list_resume-IsScheduled, thread_resume-Resumed,
}
use lltrisc_v.Ipc.Waiting.{IsFlag, Waits, wait_in-Waits}
use lltrisc_v.Ipc.Sem.{Semaphore, sem_value_max, sem_take, sem_release, sem_control, cmd_reset}

-- `rt_sem_take` by the running thread, which is ready, in a consistent state with no timer twice
-- in the row, of a semaphore with one of the two queueing flags: it takes a positive value; at
-- value 0 it fails at once if it may not wait, and else the thread is suspended in its place in
-- the list, its error cleared, its timer started for a positive time.
pub sem_take-cases :
    (s : Semaphore) (time t : ℕ) (k : Kernel)
    → IsScheduled k
    → nodup k.timer_list ≡ true
    → k.current_thread ≡ some t
    → has_stat thread_ready (k.thread t) ≡ true
    → IsFlag s.flag
    → let (o, s', k') = sem_take s time k in
      (0 < s.value → (o ≡ returns eok) × (s' ≡ record s { value = s.value - 1 }) × (k' ≡ k))
      × (s.value ≡ 0 → time ≡ 0 → (o ≡ returns etimeout) × (s' ≡ s) × (k' ≡ k))
      × (s.value ≡ 0
          → time ≢ 0
          → (o ≡ waits)
            × (s' ≡ s)
            × ((k'.thread t).error ≡ eok)
            × Waits (set_error t eok k) s.suspend_thread t s.flag time k')
unfolding sem_take
sem_take-cases s time t k i once current ready known = (
  λ h. ground arith,
  λ h e. ground arith,
  λ h n.
      let w =
        wait_in-Waits (set_error t eok k) s.suspend_thread t s.flag
          (set_error-IsScheduled k t eok i) (ground (arith, ready)) known time once in
      let slow : sem_take s time k
          ≡ (waits, s, wait_in s.suspend_thread t s.flag time (set_error t eok k)) =
        ground arith in
      rw slow (refl, refl, ground (arith, w.error), w),
)

-- `rt_sem_release` in a consistent state: with a thread waiting the value stays, and the first one
-- leaves the list and is ready, the last of its priority; with none the value grows, up to its
-- limit, where the call fails.
pub sem_release-cases :
    (s : Semaphore) (k : Kernel)
    → IsScheduled k
    → let (e, s', k') = sem_release s k in
      ((t : ℕ) (ts : List ℕ)
        → k.suspend_list s.suspend_thread ≡ t ∷ ts
        → (e ≡ eok)
          × (s' ≡ s)
          × (k'.suspend_list s.suspend_thread ≡ ts)
          × (has_stat thread_ready (k'.thread t) ≡ true)
          × ((k'.thread t).error ≡ (k.thread t).error)
          × (k'.priority_table (k.thread t).current_priority
              ≡ k.priority_table (k.thread t).current_priority ++ t ∷ []))
      × (k.suspend_list s.suspend_thread ≡ []
          → s.value < sem_value_max
          → (e ≡ eok) × (s' ≡ record s { value = s.value + 1 }) × (k' ≡ k))
      × (k.suspend_list s.suspend_thread ≡ []
          → sem_value_max ≤ s.value
          → (e ≡ efull) × (s' ≡ s) × (k' ≡ k))
unfolding sem_release ipc_list_resume
sem_release-cases s k i = (
  λ t ts e.
      let r = thread_resume-Resumed k s.suspend_thread t ts i e in
      let k1 = (thread_resume t k).1 in
      let q = schedule-same k1 in
      let run : sem_release s k ≡ (eok, s, schedule k1) = ground (arith, e) in
      rw run (
        refl,
        refl,
        ground (arith, r.list, q.suspend_list),
        ground (arith, r.ready, q.thread),
        ground (arith, r.error, q.thread),
        ground (arith, r.last, q.priority_table),
      ),
  λ e h. ground arith,
  λ e h. ground arith,
)

-- A semaphore of a consistent kernel: a value in range, and nobody waiting while it is positive.
pub record IsCounting (s : Semaphore) (k : Kernel) : Type 0 where
  pub scheduled : IsScheduled k
  pub range : s.value ≤ sem_value_max
  pub free : 0 < s.value → k.suspend_list s.suspend_thread ≡ []

nil_of_is_empty : (xs : List ℕ) → is_empty xs ≡ true → xs ≡ []
nil_of_is_empty [] h = refl
nil_of_is_empty (x ∷ xs) h = cc

-- `rt_sem_take` by the running thread, which is ready, keeps the counting invariant, whether it
-- succeeds, fails or waits.
pub sem_take-IsCounting :
    (s : Semaphore) (time t : ℕ) (k : Kernel)
    → IsCounting s k
    → k.current_thread ≡ some t
    → has_stat thread_ready (k.thread t) ≡ true
    → let r = sem_take s time k in IsCounting r.1 r.2
unfolding sem_take
sem_take-IsCounting s time t k c current ready =
    let waited =
      wait_in-IsScheduled (set_error t eok k) s.suspend_thread t s.flag time
        (set_error-IsScheduled k t eok c.scheduled) (ground (arith, ready)) in
    elim (Bool-cases (ltb 0 s.value)) [
      | inl e ↦ rw e (record {
        scheduled = c.scheduled;
        range = ground (arith, c.range);
        free = λ h. c.free (ground arith);
      })
      | inr e ↦ elim (Bool-cases (time == 0)) [
        | inl z ↦ rw (e, z) c
        | inr z ↦
            rw (e, z, current)
              (record { scheduled = waited; range = c.range; free = λ h. absurd (ground arith) })
      ]
    ]

-- `rt_sem_release` keeps the counting invariant: the value is at most 65535, and nobody waits
-- while it is positive.
pub sem_release-IsCounting :
    (s : Semaphore) (k : Kernel) → IsCounting s k → let r = sem_release s k in IsCounting r.1 r.2
unfolding sem_release
sem_release-IsCounting s k c = elim (Bool-cases (is_empty (k.suspend_list s.suspend_thread))) [
  | inl e ↦ elim (Bool-cases (ltb s.value sem_value_max)) [
    | inl h ↦
        rw (e, h)
          (record {
            scheduled = c.scheduled;
            range = ground arith;
            free = λ _. nil_of_is_empty _ e;
          })
    | inr h ↦ rw (e, h) c
  ]
  | inr e ↦ rw e (record {
    scheduled = schedule-IsScheduled _ (ipc_list_resume-IsScheduled k s.suspend_thread c.scheduled);
    range = c.range;
    free = λ h. absurd (taken h e);
  })
]
  where
    taken : 0 < s.value → is_empty (k.suspend_list s.suspend_thread) ≡ false → ⊥
    taken h e = cc (ap (is_empty) (c.free h))

-- RT_IPC_CMD_RESET of a semaphore in the counting invariant readies every waiting thread with the
-- error RT_ERROR, sets the value and keeps the invariant.
pub sem_control-reset :
    (s : Semaphore) (arg : ℕ) (k : Kernel)
    → IsCounting s k
    → let (e, s', k') = sem_control s cmd_reset arg k in
      (e ≡ eok)
      × (s'.value ≡ arg % 2 ^ 16)
      × IsCounting s' k'
      × (k'.suspend_list s.suspend_thread ≡ [])
      × ((u : ℕ)
          → mem u (k.suspend_list s.suspend_thread) ≡ true
          → (has_stat thread_ready (k'.thread u) ≡ true) × ((k'.thread u).error ≡ error))
unfolding sem_control
sem_control-reset s arg k c =
    let k1 = ipc_list_resume_all s.suspend_thread k in
    let a = ipc_list_resume_all-AllResumed k s.suspend_thread c.scheduled in
    let q = schedule-same k1 in
    let list : (schedule k1).suspend_list s.suspend_thread ≡ [] =
      ap (λ f. f s.suspend_thread) q.suspend_list ∙ a.list in
    (
      refl,
      refl,
      record {
        scheduled = schedule-IsScheduled k1 a.scheduled;
        range = omega arith;
        free = λ _. list;
      },
      list,
      λ u m. (ground (arith, a.woken u m, q.thread), ground (arith, a.woken u m, q.thread)),
    )
