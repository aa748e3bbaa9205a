-- ===== src/Clock/Sleep.antt =====
-- Sleeping keeps what the clock interrupt relies on.
use lltrisc_v.Prelude.{ℕ, ◌≡◌, true, some, arith, mem-remove_ne, mem-remove_self, nodup-remove}
use lltrisc_v.Kernel.State.{Kernel, thread_timeout, has_stat, thread_ready, thread_suspend}
use lltrisc_v.Kernel.Lists.{set_timer}
use lltrisc_v.Scheduler.{schedule, remove_thread}
use lltrisc_v.Scheduler.Highest.{SameQueues-IsScheduled, schedule-same, schedule-IsScheduled}
use lltrisc_v.Timer.{timer_stop, timer_unlink, timer_control}
use lltrisc_v.Timer.Order.{timer_start-runs}
use lltrisc_v.Thread.{thread_suspend_call, start_thread_timer, thread_sleep}
use lltrisc_v.Thread.Invariant.{thread_suspend-IsScheduled, start_thread_timer-SameQueues}
use lltrisc_v.Clock.Safe.{IsTimed, timer_start-timer}

-- A thread made by `_rt_thread_init`: its timer calls `rt_thread_timeout` for it.
abbrev pub HasOwnTimer : ℕ → Kernel → Type 0
HasOwnTimer t k = (k.timer (k.thread t).thread_timer).timeout_func ≡ thread_timeout t

suspend-IsTimed : (t : ℕ) (k : Kernel) → IsTimed k → IsTimed (thread_suspend_call t k).1
unfolding thread_suspend_call remove_thread timer_stop timer_unlink
suspend-IsTimed t k i = record {
  scheduled = thread_suspend-IsScheduled k t i.scheduled;
  owned = λ n u e. ground (arith, i.owned n u);
  pending = λ n u e h. ground (
    arith,
    i.pending n u,
    i.distinct,
    mem-remove_ne n (k.thread t).thread_timer k.timer_list,
    mem-remove_self (k.thread t).thread_timer k.timer_list,
  );
  distinct = ground (arith, i.distinct, nodup-remove (k.thread t).thread_timer k.timer_list);
}

suspend-own : (t : ℕ) (k : Kernel) → HasOwnTimer t k → HasOwnTimer t (thread_suspend_call t k).1
unfolding thread_suspend_call remove_thread timer_stop timer_unlink
suspend-own t k e = ground (arith, e)

suspend-stat :
    (t : ℕ) (k : Kernel)
    → has_stat thread_ready (k.thread t) ≡ true
    → has_stat thread_suspend ((thread_suspend_call t k).1.thread t) ≡ true
unfolding thread_suspend_call remove_thread timer_stop timer_unlink
suspend-stat t k ready = ground (arith, ready)

start-IsTimed :
    (t tick : ℕ) (k : Kernel)
    → IsTimed k
    → HasOwnTimer t k
    → has_stat thread_suspend (k.thread t) ≡ true
    → IsTimed (start_thread_timer t tick k)
unfolding start_thread_timer timer_control
start-IsTimed t tick k i own asleep =
    let m = (k.thread t).thread_timer in
    let k' = set_timer m (record (k.timer m) { init_tick = tick }) k in
    let q = start_thread_timer-SameQueues t tick k in
    let (on, due, distinct, members) = timer_start-runs k' m i.distinct in
    record {
      scheduled = SameQueues-IsScheduled q i.scheduled;
      owned = λ n u e. ground (arith, q.thread, i.owned n u, timer_start-timer m n k');
      pending = λ n u e h. ground (
        arith,
        q.thread,
        i.pending n u,
        i.owned n u,
        own,
        asleep,
        timer_start-timer m n k',
        members n,
      );
      distinct = distinct;
    }

schedule-IsTimed : (k : Kernel) → IsTimed k → IsTimed (schedule k)
schedule-IsTimed k i =
    let s = schedule-same k in
    record {
      scheduled = schedule-IsScheduled k i.scheduled;
      owned = λ m t e. ground (arith, s.thread, s.timer, i.owned m t);
      pending = λ m t e h. ground (arith, s.thread, s.timer, s.timer_list, i.pending m t);
      distinct = ground (arith, s.timer_list, i.distinct);
    }

-- `rt_thread_sleep` of the running thread, which is ready and has a timer of its own, keeps the
-- kernel consistent: each running timer of a thread belongs to one that is suspended.
pub thread_sleep-IsTimed :
    (k : Kernel) (t tick : ℕ)
    → IsTimed k
    → k.current_thread ≡ some t
    → has_stat thread_ready (k.thread t) ≡ true
    → HasOwnTimer t k
    → IsTimed (thread_sleep tick k)
unfolding thread_sleep
thread_sleep-IsTimed k t tick i current ready own =
    let slept : thread_sleep tick k
        ≡ schedule (start_thread_timer t tick (thread_suspend_call t k).1) =
      ground (arith, current) in
    rw slept (
      schedule-IsTimed _ (
        start-IsTimed t tick _ (suspend-IsTimed t k i) (suspend-own t k own)
          (suspend-stat t k ready)))
