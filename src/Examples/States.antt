-- ===== src/Examples/States.antt =====
-- Concrete kernels, built by the calls that build them in the program.
use lltrisc_v.Prelude.{ℕ, ◌≡◌, refl, ap, ◌∙◌, true, false, [], some, none, arith, mem, nodup}
use lltrisc_v.Kernel.State.{
  Kernel, Thread, Timer, thread_timeout, eok, thread_init, has_stat, thread_suspend, thread_ready,
}
use lltrisc_v.Scheduler.{
  scheduler_init, scheduler_start, insert_thread, start_with, highest_ready_priority, remove_thread,
  schedule, switch_to, dispatch,
}
use lltrisc_v.Timer.{
  timer_init, timer_stop, timer_unlink, timer_control, timer_start, insert_sorted,
}
use lltrisc_v.Bits.Ffs.{rt_ffs, lowest_bit_bitmap}
use lltrisc_v.Scheduler.Invariant.{IsScheduled}
use lltrisc_v.Scheduler.Boot.{IsBlank, scheduler_init-IsScheduled, scheduler_start-IsScheduled}
use lltrisc_v.Thread.{
  thread_init_call, thread_startup, thread_sleep, thread_resume, thread_suspend_call,
  start_thread_timer,
}
use lltrisc_v.Thread.Boot.{thread_init_call-IsScheduled}
use lltrisc_v.Thread.Lifecycle.{thread_startup-IsScheduled}
use lltrisc_v.Clock.Safe.{IsTimed, IsQuiet}
use lltrisc_v.Clock.{tick_set}
use lltrisc_v.Clock.Due.{HasPeriods, due_in}
use lltrisc_v.Clock.Tick.{ticked}
use lltrisc_v.Scheduler.Highest.{SameQueues-IsScheduled}
use lltrisc_v.Clock.Sleep.{HasOwnTimer, thread_sleep-IsTimed}

-- Every thread has the timer of its own number.
abbrev blank_thread : ℕ → Thread
blank_thread t = record {
  stat = thread_init;
  error = eok;
  init_priority = 0;
  current_priority = 0;
  number_mask = 0;
  event_set = 0;
  event_info = 0;
  init_tick = 0;
  remaining_tick = 0;
  thread_timer = t;
}

abbrev blank_timer : ℕ → Timer
blank_timer m = record {
  activated = false;
  periodic = false;
  soft = false;
  timeout_func = thread_timeout m;
  init_tick = 0;
  timeout_tick = 0;
}

abbrev pub blank : Kernel
blank = record {
  thread = blank_thread;
  timer = blank_timer;
  priority_table = λ _. [];
  ready_group = 5;
  suspend_list = λ _. [];
  timer_list = [];
  fired_list = [];
  current_thread = none;
  current_priority = 0;
  lock_nest = 3;
  interrupt_nest = 0;
  tick = 0;
  request = record { from_thread = none; to_thread = none; flag = 0 };
  switches = [];
  fault = false;
}

pub blank-IsBlank : IsBlank blank
blank-IsBlank = record { new = λ t. refl; outside = λ p h. refl; no_waiter = λ o. refl }

-- The idle thread 0 of priority 7, and the threads 1 and 2 of priorities 2 and 3.
abbrev pub created : Kernel
created =
    thread_init_call 2 3 20
      (thread_init_call 1 2 20 (thread_init_call 0 7 32 (scheduler_init blank)))

pub created-IsScheduled : IsScheduled created
unfolding thread_init_call timer_init scheduler_init
created-IsScheduled =
    (thread_init_call-IsScheduled _ 2 3 20
      (thread_init_call-IsScheduled _ 1 2 20
        (thread_init_call-IsScheduled _ 0 7 32 (scheduler_init-IsScheduled blank blank-IsBlank)
          refl).0
        refl).0
      refl).0

abbrev pub started : Kernel
started = (thread_startup 2 (thread_startup 1 (thread_startup 0 created).1).1).1

pub started-IsScheduled : IsScheduled started
unfolding thread_init_call timer_init scheduler_init thread_startup thread_resume insert_thread
    timer_stop timer_unlink
started-IsScheduled =
    thread_startup-IsScheduled _ 2
      (thread_startup-IsScheduled _ 1
        (thread_startup-IsScheduled _ 0 created-IsScheduled refl (omega arith)) refl (omega arith))
      refl (omega arith)

-- Thread 1 runs.
abbrev pub running : Kernel
running = scheduler_start started

pub running-IsScheduled : IsScheduled running
running-IsScheduled = scheduler_start-IsScheduled started started-IsScheduled

running-timers :
    (m : ℕ)
    → ((running.timer m).timeout_func ≡ thread_timeout m) × ((running.timer m).periodic ≡ false)
unfolding thread_init_call timer_init scheduler_init thread_startup thread_resume insert_thread
    timer_stop timer_unlink scheduler_start start_with highest_ready_priority rt_ffs
    lowest_bit_bitmap
running-timers m = (ground arith, ground arith)

running-threads : (t : ℕ) → (running.thread t).thread_timer ≡ t
unfolding thread_init_call timer_init scheduler_init thread_startup thread_resume insert_thread
    timer_stop timer_unlink scheduler_start start_with highest_ready_priority rt_ffs
    lowest_bit_bitmap
running-threads t = ground arith

pub running-current : running.current_thread ≡ some 1
unfolding thread_init_call timer_init scheduler_init thread_startup thread_resume insert_thread
    timer_stop timer_unlink scheduler_start start_with highest_ready_priority rt_ffs
    lowest_bit_bitmap
running-current = refl

pub running-ready : has_stat thread_ready (running.thread 1) ≡ true
unfolding thread_init_call timer_init scheduler_init thread_startup thread_resume insert_thread
    timer_stop timer_unlink scheduler_start start_with highest_ready_priority rt_ffs
    lowest_bit_bitmap
running-ready = refl

running-idle : running.timer_list ≡ []
unfolding thread_init_call timer_init scheduler_init thread_startup thread_resume insert_thread
    timer_stop timer_unlink scheduler_start start_with highest_ready_priority rt_ffs
    lowest_bit_bitmap
running-idle = refl

pub running-tick : running.tick ≡ 0
unfolding thread_init_call timer_init scheduler_init thread_startup thread_resume insert_thread
    timer_stop timer_unlink scheduler_start start_with highest_ready_priority rt_ffs
    lowest_bit_bitmap
running-tick = refl

pub running-once : nodup running.timer_list ≡ true
running-once = ap nodup running-idle

pub running-IsTimed : IsTimed running
running-IsTimed = record {
  scheduled = running-IsScheduled;
  owned = λ m t e. ground (arith, running-timers m, running-threads t, e);
  pending = λ m t e h. cc (ap (mem m) running-idle);
  distinct = running-once;
}

-- Thread 1 sleeps for five ticks.
abbrev pub asleep : Kernel
asleep = thread_sleep 5 running

pub running-own : HasOwnTimer 1 running
running-own = ap (λ m. (running.timer m).timeout_func) (running-threads 1) ∙ (running-timers 1).0

pub asleep-IsTimed : IsTimed asleep
asleep-IsTimed =
    thread_sleep-IsTimed running 1 5 running-IsTimed running-current running-ready running-own

-- Four ticks later: at the next one the sleeper's time has come.
abbrev pub late : Kernel
late = tick_set 4 asleep

pub late-IsTimed : IsTimed late
unfolding tick_set
late-IsTimed = record {
  scheduled = SameQueues-IsScheduled (ground arith) asleep-IsTimed.scheduled;
  owned = asleep-IsTimed.owned;
  pending = asleep-IsTimed.pending;
  distinct = asleep-IsTimed.distinct;
}

late-one_shot : (m : ℕ) → (late.timer m).periodic ≡ false
unfolding tick_set thread_init_call timer_init scheduler_init thread_startup thread_resume
    insert_thread timer_stop timer_unlink scheduler_start start_with highest_ready_priority rt_ffs
    lowest_bit_bitmap thread_sleep thread_suspend_call remove_thread start_thread_timer
    timer_control timer_start insert_sorted schedule switch_to dispatch
late-one_shot m = ground arith

pub late-HasPeriods : HasPeriods late
unfolding tick_set
late-HasPeriods = record {
  tick_fits = omega arith;
  not_zero = λ m e. ground (arith, late-one_shot m);
  below = λ m e. ground (arith, late-one_shot m);
}

pub late-current : late.current_thread ≡ some 2
unfolding tick_set thread_init_call timer_init scheduler_init thread_startup thread_resume
    insert_thread timer_stop timer_unlink scheduler_start start_with highest_ready_priority rt_ffs
    lowest_bit_bitmap thread_sleep thread_suspend_call remove_thread start_thread_timer
    timer_control timer_start insert_sorted schedule switch_to dispatch
late-current = refl

pub late-due : due_in (ticked late) ≡ 1
unfolding tick_set thread_init_call timer_init scheduler_init thread_startup thread_resume
    insert_thread timer_stop timer_unlink scheduler_start start_with highest_ready_priority rt_ffs
    lowest_bit_bitmap thread_sleep thread_suspend_call remove_thread start_thread_timer
    timer_control timer_start insert_sorted schedule switch_to dispatch
late-due = refl

pub late-asleep : has_stat thread_suspend (late.thread 1) ≡ true
unfolding tick_set thread_init_call timer_init scheduler_init thread_startup thread_resume
    insert_thread timer_stop timer_unlink scheduler_start start_with highest_ready_priority rt_ffs
    lowest_bit_bitmap thread_sleep thread_suspend_call remove_thread start_thread_timer
    timer_control timer_start insert_sorted schedule switch_to dispatch
late-asleep = refl

-- An application without timers of its own.
abbrev pub no_callback : ℕ → ℕ → Kernel → Kernel
no_callback f x k = k

pub no_callback-IsQuiet : IsQuiet no_callback
no_callback-IsQuiet = record {
  timed = λ f x k i. i;
  timer = λ f x k. refl;
  timer_list = λ f x k. refl;
  fired_list = λ f x k. refl;
  tick = λ f x k. refl;
}
