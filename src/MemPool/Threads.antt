-- ===== src/MemPool/Threads.antt =====
-- The threads that wait for a memory pool, os/rt-thread-nano/src/mempool.c.
use lltrisc_v.Prelude.{
  ℕ, ◌+◌, ◌%◌, ◌^◌, ◌≡◌, ◌≢◌, refl, ap, ◌∙◌, true, false, List, [], ◌∷◌, ◌++◌, arith, mem, nodup,
  remove_absent, update, ==_refl, Bool-cases, inl, inr,
}
use lltrisc_v.Kernel.State.{Kernel, eok, has_stat, thread_ready, thread_suspend}
use lltrisc_v.Kernel.Lists.{set_error}
use lltrisc_v.Scheduler.{schedule}
use lltrisc_v.Scheduler.Invariant.{IsScheduled}
use lltrisc_v.Scheduler.Highest.{SameQueues, schedule-same}
use lltrisc_v.Thread.{thread_suspend_call, thread_resume, start_thread_timer}
use lltrisc_v.Thread.Sleep.{thread_suspend-Suspended, Armed, start_thread_timer-Armed}
use lltrisc_v.Ipc.{is_positive}
use lltrisc_v.Ipc.Suspend.{set_error-IsScheduled, thread_resume-Resumed}
use lltrisc_v.MemPool.{mp_wait, mp_wake}

-- Thread `t`, that was running, waits before all others of list `o`: it is suspended, out of the ready
-- queues, its error clear, its timer started for a positive time; the scheduler was called.
pub record WaitsFirst (k : Kernel) (o t time : ℕ) (k' : Kernel) : Type 0 where
  pub suspended : has_stat thread_suspend (k'.thread t) ≡ true
  pub unqueued : (p : ℕ) → mem t (k'.priority_table p) ≡ false
  pub list : k'.suspend_list o ≡ t ∷ k.suspend_list o
  pub error : (k'.thread t).error ≡ eok
  pub others : (u : ℕ) → u ≢ t → k'.thread u ≡ k.thread u
  pub runs :
      is_positive time ≡ true
      → (mem (k.thread t).thread_timer k'.timer_list ≡ true)
        × ((k'.timer (k.thread t).thread_timer).timeout_tick ≡ (k.tick + time) % 2 ^ 32)
  pub scheduled : (l : Kernel) × (l.current_thread ≡ k.current_thread) × (k' ≡ schedule l)

module _ (k : Kernel) (o t time : ℕ) (i : IsScheduled k)
    (ready : has_stat thread_ready (k.thread t) ≡ true) (once : nodup k.timer_list ≡ true) where
  abbrev parked : Kernel
  parked =
      let k1 = (thread_suspend_call t (set_error t eok k)).1 in
      record k1 { suspend_list = update k1.suspend_list o (t ∷ k1.suspend_list o) }

  parked-WaitsFirst :
      (m : Kernel)
      → SameQueues parked m
      → m.current_thread ≡ parked.current_thread
      → (is_positive time ≡ true → Armed t time parked m)
      → WaitsFirst k o t time (schedule m)
  parked-WaitsFirst m q current armed =
      let s =
        thread_suspend-Suspended (set_error t eok k) t (set_error-IsScheduled k t eok i)
          (ground (arith, ready)) in
      let e = schedule-same m in
      let absent = remove_absent t (k.suspend_list o) (ground (arith, i.waiting t o, ready)) in
      let same = ap (λ l. l o) s.lists ∙ absent in
      let first : parked.suspend_list o ≡ t ∷ k.suspend_list o = ground (arith, same, ==_refl o) in
      record {
        suspended = ground (arith, s.stat, q.thread, e.thread);
        unqueued = λ p. ground (arith, s.unqueued p, q.priority_table, e.priority_table);
        list = ap (λ f. f o) (e.suspend_list ∙ q.suspend_list) ∙ first;
        error = ground (arith, s.same_error, q.thread, e.thread);
        others = λ u h. ap (λ f. f u) (e.thread ∙ q.thread) ∙ s.others u h ∙ ground arith;
        runs = λ h.
            let a = armed h in
            (
              ground (arith, a.runs, s.same_timer, e.timer_list),
              ground (arith, a.due, s.same_timer, s.tick, e.timer),
            );
        scheduled = (m, current ∙ s.current, refl);
      }

  pub mp_wait-WaitsFirst : WaitsFirst k o t time (mp_wait o t time k)
  unfolding mp_wait
  mp_wait-WaitsFirst =
      let s =
        thread_suspend-Suspended (set_error t eok k) t (set_error-IsScheduled k t eok i)
          (ground (arith, ready)) in
      let a = start_thread_timer-Armed parked t time (s.timers_once once) in
      elim (Bool-cases (is_positive time)) [
        | inl e ↦
            rw e (parked-WaitsFirst (start_thread_timer t time parked) a.queues a.current (λ _. a))
        | inr e ↦ rw e (parked-WaitsFirst parked (ground arith) refl (λ h. cc))
      ]

-- The first thread `t` of list `o` was resumed, the others being `ts`: it is ready, the last of its priority,
-- its error clear; the scheduler was called.
pub record WokenFirst (k : Kernel) (o t : ℕ) (ts : List ℕ) (k' : Kernel) : Type 0 where
  pub list : k'.suspend_list o ≡ ts
  pub ready : has_stat thread_ready (k'.thread t) ≡ true
  pub last :
      k'.priority_table (k.thread t).current_priority
      ≡ k.priority_table (k.thread t).current_priority ++ t ∷ []
  pub error : (k'.thread t).error ≡ eok
  pub others : (u : ℕ) → u ≢ t → k'.thread u ≡ k.thread u
  pub scheduled : (l : Kernel) × (l.suspend_list o ≡ ts) × (k' ≡ schedule l)

pub mp_wake-WokenFirst :
    (k : Kernel) (o t : ℕ) (ts : List ℕ)
    → IsScheduled k
    → k.suspend_list o ≡ t ∷ ts
    → WokenFirst k o t ts (mp_wake o k)
unfolding mp_wake
mp_wake-WokenFirst k o t ts i e =
    let r = thread_resume-Resumed (set_error t eok k) o t ts (set_error-IsScheduled k t eok i) e in
    let l = (thread_resume t (set_error t eok k)).1 in
    let s = schedule-same l in
    let run : mp_wake o k ≡ schedule l = ground (arith, e) in
    rw run (record {
      list = ground (arith, r.list, s.suspend_list);
      ready = ground (arith, r.ready, s.thread);
      last = ground (arith, r.last, s.priority_table);
      error = ground (arith, r.error, s.thread);
      others = λ u h. ap (λ f. f u) s.thread ∙ r.others u h ∙ ground arith;
      scheduled = (l, r.list, refl);
    })

pub mp_wake-nobody : (k : Kernel) (o : ℕ) → k.suspend_list o ≡ [] → mp_wake o k ≡ k
unfolding mp_wake
mp_wake-nobody k o e = ground (arith, e)
