-- ===== src/Thread/Sleep.antt =====
-- A thread that sleeps, and its timer that wakes it.
use lltrisc_v.Prelude.{
  ℕ, ◌+◌, ◌%◌, ◌^◌, ◌≡◌, ◌≢◌, true, false, [], ◌∷◌, ◌++◌, some, arith, mem, remove, nodup,
  mem-remove_self, nodup-remove,
}
use lltrisc_v.Kernel.State.{Kernel, eok, etimeout, has_stat, thread_ready, thread_suspend}
use lltrisc_v.Kernel.Lists.{unlink, set_error}
use lltrisc_v.Scheduler.{insert_thread, remove_thread}
use lltrisc_v.Scheduler.Invariant.{IsScheduled}
use lltrisc_v.Scheduler.Highest.{SameQueues, schedule-same}
use lltrisc_v.Timer.{timer_start, timer_stop, timer_control, set_time}
use lltrisc_v.Timer.Order.{timer_start-runs}
use lltrisc_v.Thread.Invariant.{not_queued, unlink-alone, start_thread_timer-SameQueues}
use lltrisc_v.Thread.{
  thread_suspend_call, thread_sleep, thread_sleep_resumed, start_thread_timer, timeout,
}

-- What a ready thread's suspension leaves for the code behind it.
pub record Suspended (k : Kernel) (t : ℕ) (k' : Kernel) : Type 0 where
  pub stat : has_stat thread_suspend (k'.thread t) ≡ true
  pub unqueued : (p : ℕ) → mem t (k'.priority_table p) ≡ false
  pub same_timer : (k'.thread t).thread_timer ≡ (k.thread t).thread_timer
  pub same_priority : (k'.thread t).current_priority ≡ (k.thread t).current_priority
  pub same_error : (k'.thread t).error ≡ (k.thread t).error
  pub others : (u : ℕ) → u ≢ t → k'.thread u ≡ k.thread u
  pub timers_once : nodup k.timer_list ≡ true → nodup k'.timer_list ≡ true
  pub tick : k'.tick ≡ k.tick
  pub lists : k'.suspend_list ≡ λ o. remove t (k.suspend_list o)
  pub current : k'.current_thread ≡ k.current_thread
  pub nest : k'.lock_nest ≡ k.lock_nest
  pub fault : k'.fault ≡ k.fault

pub thread_suspend-Suspended :
    (k : Kernel) (t : ℕ)
    → IsScheduled k
    → has_stat thread_ready (k.thread t) ≡ true
    → Suspended k t (thread_suspend_call t k).1
unfolding thread_suspend_call timer_stop remove_thread
thread_suspend-Suspended k t i ready = record {
  stat = ground arith;
  unqueued = λ p. ground (arith, i.once p, mem-remove_self t (k.priority_table p));
  same_timer = ground arith;
  same_priority = ground arith;
  same_error = ground arith;
  others = λ u h. ground arith;
  timers_once = λ h. ground (arith, nodup-remove (k.thread t).thread_timer k.timer_list);
  tick = ground arith;
  lists = ground arith;
  current = ground arith;
  nest = ground arith;
  fault = ground arith;
}

-- What starting a thread's timer adds.
pub record Armed (t tick : ℕ) (k k' : Kernel) : Type 0 where
  pub queues : SameQueues k k'
  pub runs : mem (k.thread t).thread_timer k'.timer_list ≡ true
  pub activated : (k'.timer (k.thread t).thread_timer).activated ≡ true
  pub due : (k'.timer (k.thread t).thread_timer).timeout_tick ≡ (k.tick + tick) % 2 ^ 32
  pub current : k'.current_thread ≡ k.current_thread
  pub nest : k'.lock_nest ≡ k.lock_nest
  pub fault : k'.fault ≡ k.fault

-- Who runs, and whether the scheduler is locked.
pub record SameRun (k k' : Kernel) : Type 0 where
  pub current : k'.current_thread ≡ k.current_thread
  pub nest : k'.lock_nest ≡ k.lock_nest
  pub fault : k'.fault ≡ k.fault

start_thread_timer-SameRun : (t tick : ℕ) (k : Kernel) → SameRun k (start_thread_timer t tick k)
unfolding start_thread_timer timer_start timer_control
start_thread_timer-SameRun t tick k = ground arith

pub start_thread_timer-Armed :
    (k : Kernel) (t tick : ℕ)
    → nodup k.timer_list ≡ true
    → Armed t tick k (start_thread_timer t tick k)
unfolding start_thread_timer timer_control
start_thread_timer-Armed k t tick once =
    let m = (k.thread t).thread_timer in
    let l = (timer_control m (set_time tick) k).1 in
    let (on, due, _, row) = timer_start-runs l m once in
    let same = start_thread_timer-SameRun t tick k in
    record {
      queues = start_thread_timer-SameQueues t tick k;
      runs = ground (arith, row m);
      activated = on;
      due = ground (arith, due);
      current = same.current;
      nest = same.nest;
      fault = same.fault;
    }

-- The running thread, ready, in a consistent state with no timer twice in the row, that sleeps is
-- suspended and in no ready queue; its timer runs, due after the given number of ticks.
pub thread_sleep-suspends :
    (k : Kernel) (t tick : ℕ)
    → IsScheduled k
    → k.current_thread ≡ some t
    → has_stat thread_ready (k.thread t) ≡ true
    → nodup k.timer_list ≡ true
    → let k' = thread_sleep tick k in
      let m = (k.thread t).thread_timer in
      (has_stat thread_suspend (k'.thread t) ≡ true)
      × ((p : ℕ) → mem t (k'.priority_table p) ≡ false)
      × (mem m k'.timer_list ≡ true)
      × ((k'.timer m).activated ≡ true)
      × ((k'.timer m).timeout_tick ≡ (k.tick + tick) % 2 ^ 32)
unfolding thread_sleep
thread_sleep-suspends k t tick i current ready once =
    let l = (thread_suspend_call t k).1 in
    let s = thread_suspend-Suspended k t i ready in
    let a = start_thread_timer-Armed l t tick (s.timers_once once) in
    let e = schedule-same (start_thread_timer t tick l) in
    rw (current, thread_sleep)
      (
        ground (arith, s.stat, a.queues, e.thread),
        λ p. ground (arith, s.unqueued p, a.queues, e.priority_table),
        ground (arith, a.runs, s.same_timer, e.timer_list),
        ground (arith, a.activated, s.same_timer, e.timer),
        ground (arith, a.due, s.same_timer, s.tick, e.timer),
      )

-- In a consistent state the timeout of a suspended thread makes it ready, the last in the queue of
-- its priority and in no suspend list, with the error -RT_ETIMEOUT.
pub timeout-readies :
    (k : Kernel) (t : ℕ)
    → IsScheduled k
    → has_stat thread_suspend (k.thread t) ≡ true
    → let k' = timeout t k in
      let p = (k.thread t).current_priority in
      (has_stat thread_ready (k'.thread t) ≡ true)
      × ((k'.thread t).error ≡ etimeout)
      × (k'.priority_table p ≡ k.priority_table p ++ t ∷ [])
      × ((o : ℕ) → mem t (k'.suspend_list o) ≡ false)
unfolding timeout insert_thread
timeout-readies k t i h =
    let e = schedule-same (insert_thread t (unlink t (set_error t etimeout k))) in
    (
      ground (arith, e.thread),
      ground (arith, e.thread),
      ground
          (arith, e.priority_table, not_queued k t i (ground arith) (k.thread t).current_priority),
      λ o. ground (arith, e.suspend_list, unlink-alone k t i (ground arith) o),
    )

-- A sleeper that the clock has woken returns RT_EOK and clears the error, so that no later call takes
-- it for its own.
pub thread_sleep_resumed-clears :
    (k : Kernel) (t : ℕ)
    → (k.thread t).error ≡ etimeout
    → ((thread_sleep_resumed t k).0 ≡ eok) × (((thread_sleep_resumed t k).1.thread t).error ≡ eok)
unfolding thread_sleep_resumed
thread_sleep_resumed-clears k t e = ground arith
