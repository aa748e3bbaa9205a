-- ===== src/Ipc/Waiting.antt =====
-- What a wait leaves behind: the thread suspended in its place in the list, and its timer.
use lltrisc_v.Prelude.{
  ℕ, ◌+◌, ◌%◌, ◌^◌, ◌≤◌, ◌≡◌, ◌≢◌, refl, ap, ◌∙◌, true, false, List, [], ◌∷◌, ◌++◌, arith, ◌==◌,
  if◌then◌else◌, mem, nodup, remove_absent, Bool-cases, inl, inr,
}
use lltrisc_v.Kernel.State.{Kernel, Thread, has_stat, thread_ready, thread_suspend}
use lltrisc_v.Scheduler.{schedule}
use lltrisc_v.Scheduler.Invariant.{IsScheduled}
use lltrisc_v.Scheduler.Highest.{SameQueues, schedule-same}
use lltrisc_v.Thread.{thread_suspend_call}
use lltrisc_v.Thread.Sleep.{Suspended, thread_suspend-Suspended, Armed, start_thread_timer-Armed}
use lltrisc_v.Ipc.{insert_by_priority, ipc_list_suspend, wait_in, is_positive, flag_fifo, flag_prio}

-- A list with a thread added, as the object's flag says.
abbrev pub queue_up : ℕ → (ℕ → Thread) → ℕ → List ℕ → List ℕ
queue_up flag thread t ts =
    if flag == flag_fifo then ts ++ t ∷ [] else insert_by_priority thread t ts

-- The two flags that the callers pass.
abbrev pub IsFlag : ℕ → Type 0
IsFlag flag = flag ≤ flag_prio

-- The search reads the priorities only.
insert_by_priority-same :
    (f g : ℕ → Thread) (t : ℕ) (ss : List ℕ)
    → ((u : ℕ) → (f u).current_priority ≡ (g u).current_priority)
    → insert_by_priority f t ss ≡ insert_by_priority g t ss
unfolding insert_by_priority
insert_by_priority-same f g t [] h = refl
insert_by_priority-same f g t (s ∷ ss) h =
    ground (arith, h t, h s, insert_by_priority-same f g t ss h)

pub record Waits (k : Kernel) (o t flag time : ℕ) (k' : Kernel) : Type 0 where
  pub suspended : has_stat thread_suspend (k'.thread t) ≡ true
  pub unqueued : (p : ℕ) → mem t (k'.priority_table p) ≡ false
  pub list : k'.suspend_list o ≡ queue_up flag k.thread t (k.suspend_list o)
  pub error : (k'.thread t).error ≡ (k.thread t).error
  pub others : (u : ℕ) → u ≢ t → k'.thread u ≡ k.thread u
  pub runs :
      is_positive time ≡ true
      → (mem (k.thread t).thread_timer k'.timer_list ≡ true)
        × ((k'.timer (k.thread t).thread_timer).timeout_tick ≡ (k.tick + time) % 2 ^ 32)

-- The list part, before the timer and the scheduler.
record Listed (k : Kernel) (o t flag : ℕ) (k' : Kernel) : Type 0 where
  stat : has_stat thread_suspend (k'.thread t) ≡ true
  unqueued : (p : ℕ) → mem t (k'.priority_table p) ≡ false
  list : k'.suspend_list o ≡ queue_up flag k.thread t (k.suspend_list o)
  same_timer : (k'.thread t).thread_timer ≡ (k.thread t).thread_timer
  same_error : (k'.thread t).error ≡ (k.thread t).error
  others : (u : ℕ) → u ≢ t → k'.thread u ≡ k.thread u
  timers_once : nodup k.timer_list ≡ true → nodup k'.timer_list ≡ true
  tick : k'.tick ≡ k.tick

same_priorities :
    (k k' : Kernel) (t : ℕ)
    → Suspended k t k'
    → (u : ℕ) → (k'.thread u).current_priority ≡ (k.thread u).current_priority
same_priorities k k' t s u = elim (Bool-cases (u == t)) [
  | inl e ↦ ground (arith, s.same_priority)
  | inr e ↦ ap (λ (b : Thread). b.current_priority) (s.others u (ground arith))
]

module _ (k : Kernel) (o t flag : ℕ) (i : IsScheduled k)
    (ready : has_stat thread_ready (k.thread t) ≡ true) (known : IsFlag flag) where
  suspend-Listed : Listed k o t flag (ipc_list_suspend o t flag k)
  unfolding ipc_list_suspend
  suspend-Listed =
      let k1 = (thread_suspend_call t k).1 in
      let s = thread_suspend-Suspended k t i ready in
      let absent = remove_absent t (k.suspend_list o) (ground (arith, i.waiting t o)) in
      let same : k1.suspend_list o ≡ k.suspend_list o = ap (λ l. l o) s.lists ∙ absent in
      let sorted =
        insert_by_priority-same k1.thread k.thread t (k.suspend_list o)
          (same_priorities k k1 t s) in
      record {
        stat = ground (arith, s.stat);
        unqueued = λ p. ground (arith, s.unqueued p);
        list = ground (arith, same, sorted, ap (insert_by_priority k1.thread t) same);
        same_timer = ground (arith, s.same_timer);
        same_error = ground (arith, s.same_error);
        others = λ u h. ground (arith, s.others u h);
        timers_once = λ h. ground (arith, s.timers_once h);
        tick = ground (arith, s.tick);
      }

  Listed-Waits :
      (l m : Kernel) (time : ℕ)
      → Listed k o t flag l
      → SameQueues l m
      → (is_positive time ≡ true → Armed t time l m)
      → Waits k o t flag time (schedule m)
  Listed-Waits l m time s q armed =
      let e = schedule-same m in
      record {
        suspended = ground (arith, s.stat, q, e.thread);
        unqueued = λ p. ground (arith, s.unqueued p, q.priority_table, e.priority_table);
        list = ap (λ f. f o) (e.suspend_list ∙ q.suspend_list) ∙ s.list;
        error = ground (arith, s.same_error, q.thread, e.thread);
        others = λ u h. ap (λ f. f u) (e.thread ∙ q.thread) ∙ s.others u h;
        runs = λ h.
            let a = armed h in
            (
              ground (arith, a.runs, s.same_timer, e.timer_list),
              ground (arith, a.due, s.same_timer, s.tick, e.timer),
            );
      }

  pub wait_in-Waits :
      (time : ℕ) → nodup k.timer_list ≡ true → Waits k o t flag time (wait_in o t flag time k)
  unfolding wait_in
  wait_in-Waits time once =
      let l = ipc_list_suspend o t flag k in
      let s = suspend-Listed in
      let a = start_thread_timer-Armed l t time (s.timers_once once) in
      elim (Bool-cases (is_positive time)) [
        | inl e ↦ rw e (Listed-Waits l _ time s a.queues (λ _. a))
        | inr e ↦ rw e (Listed-Waits l l time s (ground arith) (λ h. cc))
      ]
