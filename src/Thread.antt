-- ===== src/Thread.antt =====
-- os/rt-thread-nano/src/thread.c: the life of a thread between the ready queues, the suspend lists
-- and its timer. A function that calls `rt_schedule` and goes on later is two functions: the part
-- up to the call, and `_resumed`, which runs when the thread is current again.
pub mod Invariant
pub mod Sleep
pub mod Priority
pub mod Lifecycle
pub mod Boot
pub mod Exit
use lltrisc_v.Prelude.{
  ℕ, ◌+◌, ◌-◌, ◌*◌, ◌/◌, ◌%◌, ◌^◌, Bool, true, false, not, ◌&&◌, Option, none, some, List, [], ◌∷◌,
  ◌++◌, ◌==◌, if◌then◌else◌, ltb, update, length,
}
use lltrisc_v.Kernel.State.{
  Kernel, Thread, Timeout, Err, eok, error, etimeout, thread_timeout, callback, with_stat, has_stat,
  thread_init, thread_ready, thread_suspend,
}
use lltrisc_v.Kernel.Lists.{set_thread, set_error, unlink, fail}
use lltrisc_v.Scheduler.{schedule, insert_thread, remove_thread}
use lltrisc_v.Timer.{timer_init, timer_start, timer_stop, timer_control, set_time}

-- `rt_thread_self() != RT_NULL`
abbrev has_current : Option ℕ → Bool
has_current none = false
has_current (some t) = true

-- `_rt_thread_init`, up to the stack, for a thread whose node is in no list
unfoldable pub thread_init_call : (t priority tick : ℕ) → Kernel → Kernel
thread_init_call t priority tick k =
    let b = record (k.thread t) {
      init_priority = priority;
      current_priority = priority;
      number_mask = 0;
      init_tick = tick;
      remaining_tick = tick;
      error = eok;
      stat = thread_init;
    } in
    timer_init (k.thread t).thread_timer (thread_timeout t) 0 false false (set_thread t b k)

-- `rt_thread_suspend`
unfoldable pub thread_suspend_call : ℕ → Kernel → Err × Kernel
thread_suspend_call t k =
    let k1 = remove_thread t k in
    let k2 = set_thread t (with_stat thread_suspend (k1.thread t)) k1 in
    if not (has_stat thread_ready (k.thread t))
    then (error, k)
    else (eok, (timer_stop (k.thread t).thread_timer k2).1)

-- `rt_thread_resume`
unfoldable pub thread_resume : ℕ → Kernel → Err × Kernel
thread_resume t k =
    if not (has_stat thread_suspend (k.thread t))
    then (error, k)
    else (eok, insert_thread t (timer_stop (k.thread t).thread_timer (unlink t k)).1)

-- `1 << priority` on an `rt_uint32_t`
abbrev pub mask_of : ℕ → ℕ
mask_of priority = 2 ^ priority % 2 ^ 32

abbrev with_priority : ℕ → Thread → Thread
with_priority p b = record b { current_priority = p; number_mask = mask_of p }

-- `rt_thread_startup`
unfoldable pub thread_startup : ℕ → Kernel → Err × Kernel
thread_startup t k =
    let b = with_priority (k.thread t).init_priority (k.thread t) in
    let k1 = (thread_resume t (set_thread t (record b { stat = thread_suspend }) k)).1 in
    (eok, if has_current k.current_thread then schedule k1 else k1)

-- The two list operations of `rt_thread_yield`: to the end of the queue of its priority.
abbrev pub to_tail : ℕ → Kernel → Kernel
to_tail t k =
    let p = (k.thread t).current_priority in
    let k' = unlink t k in
    record k' { priority_table = update k'.priority_table p (k'.priority_table p ++ t ∷ []) }

-- `rt_thread_yield`. A ready thread's node has two different neighbours where its queue holds
-- another thread beside it.
unfoldable pub thread_yield : Kernel → Err × Kernel
thread_yield k = elim k.current_thread [
  | none ↦ (eok, fail k)
  | some t ↦
      if has_stat thread_ready (k.thread t)
        && ltb 1 (length (k.priority_table (k.thread t).current_priority))
      then (eok, schedule (to_tail t k))
      else (eok, k)
]

-- Sets the thread's timer to `tick` and starts it.
unfoldable pub start_thread_timer : ℕ → ℕ → Kernel → Kernel
start_thread_timer t tick k =
    let m = (k.thread t).thread_timer in timer_start m (timer_control m (set_time tick) k).1

-- `rt_thread_sleep` up to `rt_schedule`, and `rt_thread_delay`
unfoldable pub thread_sleep : ℕ → Kernel → Kernel
thread_sleep tick k = elim k.current_thread [
  | none ↦ fail k
  | some t ↦ schedule (start_thread_timer t tick (thread_suspend_call t k).1)
]

-- `rt_thread_sleep` after `rt_schedule`, in thread `t`
unfoldable pub thread_sleep_resumed : ℕ → Kernel → Err × Kernel
thread_sleep_resumed t k = elim (k.thread t).error [
  | etimeout ↦ (eok, set_error t eok k)
  | _ ↦ (eok, k)
]

-- `rt_thread_control` with RT_THREAD_CTRL_CHANGE_PRIORITY
unfoldable pub change_priority : ℕ → ℕ → Kernel → Kernel
change_priority t p k =
    let k1 = remove_thread t k in
    let k2 = set_thread t (with_priority p (k1.thread t)) k1 in
    if has_stat thread_ready (k.thread t)
    then insert_thread t k2
    else set_thread t (with_priority p (k.thread t)) k

-- `rt_thread_timeout`
unfoldable pub timeout : ℕ → Kernel → Kernel
timeout t k = schedule (insert_thread t (unlink t (set_error t etimeout k)))

-- What a timer calls; an application's callbacks are the argument.
unfoldable pub run_timeout : (ℕ → ℕ → Kernel → Kernel) → Timeout → Kernel → Kernel
run_timeout app (thread_timeout t) k = timeout t k
run_timeout app (callback f x) k = app f x k
