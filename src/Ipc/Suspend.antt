-- ===== src/Ipc/Suspend.antt =====
-- Waiting in an IPC object's list, and leaving it, keep the kernel consistent.
use lltrisc_v.Prelude.{
  ℕ, zero, suc, ◌+◌, ◌<◌, ◌≡◌, ◌≢◌, refl, ap, ◌∙◌, true, false, ◌||◌, List, [], ◌∷◌, ◌++◌, arith,
  ◌==◌, length, mem, nodup, mem-append, nodup-snoc, mem-remove_self, Bool-cases, inl, inr,
}
use lltrisc_v.Kernel.State.{Kernel, Thread, Err, error, has_stat, thread_ready, thread_suspend}
use lltrisc_v.Kernel.Lists.{set_error}
use lltrisc_v.Scheduler.{insert_thread}
use lltrisc_v.Timer.{timer_stop}
use lltrisc_v.Scheduler.Invariant.{IsScheduled}
use lltrisc_v.Scheduler.Highest.{SameQueues-IsScheduled, schedule-IsScheduled}
use lltrisc_v.Thread.{thread_suspend_call, thread_resume}
use lltrisc_v.Thread.Invariant.{
  thread_suspend-IsScheduled, thread_resume-IsScheduled, start_thread_timer-SameQueues, not_queued,
}
use lltrisc_v.Thread.Sleep.{Suspended, thread_suspend-Suspended}
use lltrisc_v.Ipc.{
  set_list, insert_by_priority, ipc_list_suspend, ipc_list_resume, ipc_list_resume_all,
  resume_all_loop, wait_in, is_positive, flag_fifo, flag_prio,
}

mem-insert_by_priority :
    (thread : ℕ → Thread) (t u : ℕ) (ss : List ℕ)
    → mem u (insert_by_priority thread t ss) ≡ ((t == u) || mem u ss)
unfolding insert_by_priority
mem-insert_by_priority thread t u [] = refl
mem-insert_by_priority thread t u (s ∷ ss) = ground (arith, mem-insert_by_priority thread t u ss)

nodup-insert_by_priority :
    (thread : ℕ → Thread) (t : ℕ) (ss : List ℕ)
    → nodup ss ≡ true
    → mem t ss ≡ false
    → nodup (insert_by_priority thread t ss) ≡ true
unfolding insert_by_priority
nodup-insert_by_priority thread t [] n out = refl
nodup-insert_by_priority thread t (s ∷ ss) n out =
    ground (arith, nodup-insert_by_priority thread t ss, mem-insert_by_priority thread t s ss)

-- A suspended thread may be put into a list that it is not in.
set_list-IsScheduled :
    (k : Kernel) (o t : ℕ) (ts : List ℕ)
    → IsScheduled k
    → has_stat thread_suspend (k.thread t) ≡ true
    → ((u : ℕ) → mem u ts ≡ ((t == u) || mem u (k.suspend_list o)))
    → nodup ts ≡ true
    → IsScheduled (set_list o ts k)
set_list-IsScheduled k o t ts i h members once = record {
  fits = i.fits;
  group = i.group;
  queued = i.queued;
  once = i.once;
  masks = i.masks;
  waiting = λ u p m. ground (arith, i.waiting u p, members u);
  waiting_once = λ p. ground (arith, i.waiting_once p);
}

module _ (k k' : Kernel) (o t : ℕ) (i : IsScheduled k) (i' : IsScheduled k')
    (s : Suspended k t k') where
  not_in_list : mem t (k'.suspend_list o) ≡ false
  not_in_list =
      ground (
        arith,
        ap (λ l. mem t (l o)) s.lists,
        mem-remove_self t (k.suspend_list o),
        i.waiting_once o,
      )

  fifo-IsScheduled : IsScheduled (set_list o (k'.suspend_list o ++ t ∷ []) k')
  fifo-IsScheduled =
      set_list-IsScheduled k' o t (k'.suspend_list o ++ t ∷ []) i' s.stat
        (λ u. ground (arith, mem-append u (k'.suspend_list o) (t ∷ [])))
        (nodup-snoc t (k'.suspend_list o) (i'.waiting_once o) not_in_list)

  prio-IsScheduled :
      IsScheduled (set_list o (insert_by_priority k'.thread t (k'.suspend_list o)) k')
  prio-IsScheduled =
      set_list-IsScheduled k' o t (insert_by_priority k'.thread t (k'.suspend_list o)) i' s.stat
        (λ u. mem-insert_by_priority k'.thread t u (k'.suspend_list o))
        (nodup-insert_by_priority k'.thread t (k'.suspend_list o) (i'.waiting_once o) not_in_list)

-- A ready thread that waits in a list, in either order, leaves the kernel consistent.
pub ipc_list_suspend-IsScheduled :
    (k : Kernel) (o t flag : ℕ)
    → IsScheduled k
    → has_stat thread_ready (k.thread t) ≡ true
    → IsScheduled (ipc_list_suspend o t flag k)
unfolding ipc_list_suspend
ipc_list_suspend-IsScheduled k o t flag i ready =
    let k' = (thread_suspend_call t k).1 in
    let i' = thread_suspend-IsScheduled k t i in
    let s = thread_suspend-Suspended k t i ready in
    elim (Bool-cases (flag == flag_fifo)) [
      | inl e ↦ rw e (fifo-IsScheduled k k' o t i i' s)
      | inr e ↦ elim (Bool-cases (flag == flag_prio)) [
        | inl p ↦ rw (e, p) (prio-IsScheduled k k' o t i i' s)
        | inr p ↦ rw (e, p) i'
      ]
    ]

pub set_error-IsScheduled :
    (k : Kernel) (t : ℕ) (e : Err) → IsScheduled k → IsScheduled (set_error t e k)
set_error-IsScheduled k t e i = record {
  fits = i.fits;
  group = i.group;
  queued = λ u p. ground (arith, i.queued u p);
  once = i.once;
  masks = λ u h. ground (arith, i.masks u);
  waiting = λ u o m. ground (arith, i.waiting u o);
  waiting_once = i.waiting_once;
}

-- So does the whole wait of a ready thread.
pub wait_in-IsScheduled :
    (k : Kernel) (o t flag time : ℕ)
    → IsScheduled k
    → has_stat thread_ready (k.thread t) ≡ true
    → IsScheduled (wait_in o t flag time k)
unfolding wait_in
wait_in-IsScheduled k o t flag time i ready =
    let j = ipc_list_suspend-IsScheduled k o t flag i ready in
    schedule-IsScheduled _ (elim (Bool-cases (is_positive time)) [
      | inl e ↦ rw e (SameQueues-IsScheduled (start_thread_timer-SameQueues t time _) j)
      | inr e ↦ rw e j
    ])

pub ipc_list_resume-IsScheduled :
    (k : Kernel) (o : ℕ) → IsScheduled k → IsScheduled (ipc_list_resume o k)
unfolding ipc_list_resume
ipc_list_resume-IsScheduled k o i = resumes (k.suspend_list o) refl
  where
    resumes : (ts : List ℕ) → k.suspend_list o ≡ ts → IsScheduled (ipc_list_resume o k)
    resumes [] e = rw (e, ipc_list_resume) (SameQueues-IsScheduled (ground arith) i)
    resumes (t ∷ ts) e = rw (e, ipc_list_resume) (thread_resume-IsScheduled k t i)

first-suspended :
    (k : Kernel) (o t : ℕ) (ts : List ℕ)
    → IsScheduled k
    → k.suspend_list o ≡ t ∷ ts
    → has_stat thread_suspend (k.thread t) ≡ true
first-suspended k o t ts i e = i.waiting t o (ap (mem t) e ∙ ground arith)

-- What resuming the first thread of a list does.
pub record Resumed (k : Kernel) (o t : ℕ) (ts : List ℕ) (k' : Kernel) : Type 0 where
  pub list : k'.suspend_list o ≡ ts
  pub ready : has_stat thread_ready (k'.thread t) ≡ true
  pub last :
      k'.priority_table (k.thread t).current_priority
      ≡ k.priority_table (k.thread t).current_priority ++ t ∷ []
  pub error : (k'.thread t).error ≡ (k.thread t).error
  pub others : (u : ℕ) → u ≢ t → k'.thread u ≡ k.thread u
  pub fault : k'.fault ≡ k.fault

pub thread_resume-Resumed :
    (k : Kernel) (o t : ℕ) (ts : List ℕ)
    → IsScheduled k
    → k.suspend_list o ≡ t ∷ ts
    → Resumed k o t ts (thread_resume t k).1
unfolding thread_resume timer_stop insert_thread
thread_resume-Resumed k o t ts i e =
    let suspended = first-suspended k o t ts i e in
    record {
      list = ground (arith, suspended);
      ready = ground (arith, suspended);
      last =
          ground (arith, suspended, not_queued k t i (ground arith) (k.thread t).current_priority);
      error = ground (arith, suspended);
      others = λ u h. ground (arith, suspended);
      fault = ground (arith, suspended);
    }

-- The state `k'` after all threads `ts` of list `o` of `k` were resumed.
pub record AllResumed (k : Kernel) (o : ℕ) (ts : List ℕ) (k' : Kernel) : Type 0 where
  pub scheduled : IsScheduled k'
  pub list : k'.suspend_list o ≡ []
  pub woken :
      (u : ℕ)
      → mem u ts ≡ true
      → (has_stat thread_ready (k'.thread u) ≡ true) × ((k'.thread u).error ≡ error)
  pub others : (u : ℕ) → mem u ts ≡ false → k'.thread u ≡ k.thread u
  pub fault : k'.fault ≡ k.fault

AllResumed-cons :
    (k k1 k' : Kernel) (o t : ℕ) (ts : List ℕ)
    → mem t ts ≡ false
    → Resumed (set_error t error k) o t ts k1
    → AllResumed k1 o ts k'
    → AllResumed k o (t ∷ ts) k'
AllResumed-cons k k1 k' o t ts out r a = record {
  scheduled = a.scheduled;
  list = a.list;
  woken = λ u m. ground (arith, a.woken u, a.others t out, r.ready, r.error);
  others = λ u m. ground (arith, a.others u, r.others u);
  fault = a.fault ∙ r.fault;
}

-- With each thread resumed the list gets shorter, so the loop ends with nobody left in it.
resume_all_loop-empties :
    (fuel : ℕ) (o : ℕ) (ts : List ℕ) (k : Kernel)
    → IsScheduled k
    → k.suspend_list o ≡ ts
    → length ts < fuel
    → AllResumed k o ts (resume_all_loop fuel o k)
unfolding resume_all_loop
resume_all_loop-empties zero o ts k i e h = absurd (omega arith)
resume_all_loop-empties (suc fuel) o [] k i e h =
    rw (e, resume_all_loop)
      (record { scheduled = i; list = e; woken = λ u m. cc; others = λ u m. refl; fault = refl })
resume_all_loop-empties (suc fuel) o (t ∷ ts) k i e h =
    let marked = set_error-IsScheduled k t error i in
    let r = thread_resume-Resumed (set_error t error k) o t ts marked e in
    let out : mem t ts ≡ false = ground (arith, i.waiting_once o, ap nodup e) in
    rw (e, resume_all_loop)
      (AllResumed-cons k _ _ o t ts out r (
        resume_all_loop-empties fuel o ts _ (thread_resume-IsScheduled _ t marked) r.list
          (omega arith)))

-- `rt_ipc_list_resume_all` in a consistent state returns with the list empty: each thread that
-- waited is ready with the error -RT_ERROR, no other thread has changed, and the state is
-- consistent.
pub ipc_list_resume_all-AllResumed :
    (k : Kernel) (o : ℕ)
    → IsScheduled k
    → AllResumed k o (k.suspend_list o) (ipc_list_resume_all o k)
unfolding ipc_list_resume_all
ipc_list_resume_all-AllResumed k o i =
    resume_all_loop-empties (length (k.suspend_list o) + 1) o (k.suspend_list o) k i refl
      (omega arith)
