-- ===== src/Clock/Delay.antt =====
-- Delays up to a tick and in milliseconds, os/rt-thread-nano/src/thread.c.
use lltrisc_v.Prelude.{
  ap, ◌∙◌, ◌==◌, ℕ, ◌+◌, ◌-◌, ◌%◌, ◌^◌, ◌<◌, ◌≤◌, ◌≡◌, refl, Bool, true, false, some, none, arith,
  if◌then◌else◌, ltb, mem, nodup,
}
use lltrisc_v.Kernel.State.{Kernel, Err, eok, etimeout, has_stat, thread_ready, thread_suspend}
use lltrisc_v.Kernel.Lists.{set_error, fail}
use lltrisc_v.Scheduler.{schedule}
use lltrisc_v.Scheduler.Invariant.{IsScheduled}
use lltrisc_v.Scheduler.Highest.{schedule-same}
use lltrisc_v.Thread.{thread_suspend_call, start_thread_timer, thread_sleep}
use lltrisc_v.Thread.Sleep.{thread_suspend-Suspended, start_thread_timer-Armed}
use lltrisc_v.Timer.{tick_sub, half_range}
use lltrisc_v.Timer.Check.{is_due}
use lltrisc_v.Clock.{tick_get, tick_from_millisecond}

-- The difference of two ticks on an `rt_tick_t`
abbrev tick_since : (now then_tick : ℕ) → ℕ
tick_since now then_tick = (now + 2 ^ 32 - then_tick) % 2 ^ 32

-- `rt_thread_delay_until` up to `rt_schedule`: whether the thread sleeps, and the word `*tick`.
unfoldable pub thread_delay_until : (tick inc_tick : ℕ) → Kernel → Bool × ℕ × Kernel
thread_delay_until tick inc_tick k =
    let left = tick_since ((tick + inc_tick) % 2 ^ 32) (tick_get k) in
    elim k.current_thread [
      | none ↦ (false, tick, fail k)
      | some t ↦
          if ltb (tick_since (tick_get k) tick) inc_tick
          then (true, left, schedule (start_thread_timer t left (thread_suspend_call t k).1))
          else (false, tick_get k, k)
    ]

-- `rt_thread_delay_until` after `rt_schedule`, in thread `t`: the error, `*tick` and the kernel.
unfoldable pub thread_delay_until_resumed : ℕ → Kernel → Err × ℕ × Kernel
thread_delay_until_resumed t k = elim (k.thread t).error [
  | etimeout ↦ (eok, tick_get k, set_error t eok k)
  | _ ↦ (eok, tick_get k, k)
]

-- `rt_thread_mdelay` up to `rt_schedule`
unfoldable pub thread_mdelay : (ms : ℕ) → Kernel → Kernel
thread_mdelay ms k = thread_sleep (tick_from_millisecond ms) k

-- The test of rt_timer_check from a tick on, for a timer that is due less than half the range later.
first_due :
    (d now tick inc_tick : ℕ)
    → now < 2 ^ 32
    → tick < 2 ^ 32
    → inc_tick < half_range
    → (now + 2 ^ 32 - tick) % 2 ^ 32 < inc_tick
    → d ≤ inc_tick - (now + 2 ^ 32 - tick) % 2 ^ 32
    → ltb (tick_sub ((now + d) % 2 ^ 32) ((tick + inc_tick) % 2 ^ 32)) half_range
      ≡ (d == inc_tick - (now + 2 ^ 32 - tick) % 2 ^ 32)
first_due d now tick inc_tick now_fits tick_fits half early h = ground arith

-- rt_thread_delay_until by the running thread, which is ready, in a consistent kernel with no timer twice in the
-- row, for ticks of 32 bits and an `inc_tick` below half the range of ticks, as rt_timer_start asks of a timer: before the tick
-- `tick + inc_tick` the thread is suspended, in no ready queue, and its timer runs with that tick; the test of
-- rt_timer_check finds it due at that tick, and at none of the ticks from now until then. From that tick on the
-- call returns at once with the present tick.
pub thread_delay_until-due :
    (k : Kernel) (t tick inc_tick : ℕ)
    → IsScheduled k
    → k.current_thread ≡ some t
    → has_stat thread_ready (k.thread t) ≡ true
    → nodup k.timer_list ≡ true
    → k.tick < 2 ^ 32
    → tick < 2 ^ 32
    → inc_tick < half_range
    → let (asleep, tick', k') = thread_delay_until tick inc_tick k in
      let m = (k.thread t).thread_timer in
      let passed = (k.tick + 2 ^ 32 - tick) % 2 ^ 32 in
      (passed < inc_tick
        → (asleep ≡ true)
          × (has_stat thread_suspend (k'.thread t) ≡ true)
          × ((p : ℕ) → mem t (k'.priority_table p) ≡ false)
          × (mem m k'.timer_list ≡ true)
          × ((k'.timer m).timeout_tick ≡ (tick + inc_tick) % 2 ^ 32)
          × ((d : ℕ)
              → d ≤ inc_tick - passed
              → is_due ((k.tick + d) % 2 ^ 32) (k'.timer m) ≡ (d == inc_tick - passed)))
      × (inc_tick ≤ passed → (asleep ≡ false) × (tick' ≡ k.tick) × (k' ≡ k))
unfolding thread_delay_until tick_get
thread_delay_until-due k t tick inc_tick i current ready once now_fits tick_fits half = (
  (λ early.
      let left = tick_since ((tick + inc_tick) % 2 ^ 32) k.tick in
      let l = (thread_suspend_call t k).1 in
      let m = (k.thread t).thread_timer in
      let s = thread_suspend-Suspended k t i ready in
      let a = start_thread_timer-Armed l t left (s.timers_once once) in
      let e = schedule-same (start_thread_timer t left l) in
      let due : (k.tick + left) % 2 ^ 32 ≡ (tick + inc_tick) % 2 ^ 32 = omega (arith, now_fits) in
      let end : thread_delay_until tick inc_tick k
          ≡ (true, left, schedule (start_thread_timer t left l)) =
        ground (arith, current, early) in
      let at_tick : ((schedule (start_thread_timer t left l)).timer m).timeout_tick
          ≡ (tick + inc_tick) % 2 ^ 32 =
        ground (arith, a.due, s.same_timer, s.tick, e.timer, due) in
      rw end (
        refl,
        ground (arith, s.stat, a.queues, e.thread),
        λ p. ground (arith, s.unqueued p, a.queues, e.priority_table),
        ground (arith, a.runs, s.same_timer, e.timer_list),
        at_tick,
        λ d h.
            ap (λ x. ltb (tick_sub ((k.tick + d) % 2 ^ 32) x) half_range) at_tick
            ∙ first_due d (k.tick) tick inc_tick now_fits tick_fits half early h,
      )),
  (λ late. ground (arith, current, late)),
)
