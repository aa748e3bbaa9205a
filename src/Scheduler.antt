-- ===== src/Scheduler.antt =====
-- os/rt-thread-nano/src/scheduler.c for RT_THREAD_PRIORITY_MAX at most 32 (the port sets 8), and
-- the switch request of os/rt-thread-nano/libcpu/risc-v/lltrisc-v/cpuport.c.
pub mod Invariant
pub mod Highest
pub mod Boot
pub mod Critical
use lltrisc_v.Prelude.{
  ℕ, ◌+◌, ◌-◌, ◌*◌, ◌%◌, ◌^◌, Bool, true, false, Option, none, some, List, [], ◌∷◌, ◌++◌, bit_and,
  bit_or, ◌==◌, if◌then◌else◌, leb, ltb, update, is_empty, ◌||◌,
}
use lltrisc_v.Bits.Ffs.{rt_ffs}
use lltrisc_v.Kernel.State.{Kernel, Thread, Switch, SwitchRequest, with_stat, thread_ready}
use lltrisc_v.Kernel.Lists.{set_thread, unlink, fail}

-- RT_THREAD_PRIORITY_MAX of the port's rtconfig.h
abbrev pub thread_priority_max : ℕ
thread_priority_max = 8

-- `rt_system_scheduler_init`
unfoldable pub scheduler_init : Kernel → Kernel
scheduler_init k = record k {
  lock_nest = 0;
  priority_table = λ p. if ltb p thread_priority_max then [] else k.priority_table p;
  current_priority = thread_priority_max - 1;
  current_thread = none;
  ready_group = 0;
}

-- `rt_hw_context_switch_interrupt`: the first request names the thread to leave, the last one the
-- thread to enter.
unfoldable pub context_switch_interrupt : Option ℕ → ℕ → SwitchRequest → SwitchRequest
context_switch_interrupt from to r = record {
  from_thread = if r.flag == 0 then from else r.from_thread;
  to_thread = some to;
  flag = 1;
}

abbrev is_current : ℕ → Option ℕ → Bool
is_current t none = false
is_current t (some c) = t == c

-- `__rt_ffs(rt_thread_ready_priority_group) - 1` in an `rt_ubase_t`
unfoldable pub highest_ready_priority : Kernel → ℕ
highest_ready_priority k = (rt_ffs k.ready_group + 2 ^ 32 - 1) % 2 ^ 32

-- The switch itself: at once in a thread, by request in an interrupt.
unfoldable pub switch_to : ℕ → ℕ → Kernel → Kernel
unfolding context_switch_interrupt
switch_to priority to k =
    let entered = record k { current_priority = priority % 256; current_thread = some to } in
    if k.interrupt_nest == 0
    then record entered { switches = record { from = k.current_thread; to = to } ∷ k.switches }
    else record entered { request = context_switch_interrupt k.current_thread to k.request }

unfoldable pub dispatch : ℕ → List ℕ → Kernel → Kernel
unfolding switch_to
dispatch priority [] k = fail k
dispatch priority (to ∷ rest) k =
    if is_current to k.current_thread then k else switch_to priority to k

-- `rt_schedule`. With no thread ready C takes a list head for a thread.
unfoldable pub schedule : Kernel → Kernel
unfolding dispatch highest_ready_priority
schedule k =
    let priority = highest_ready_priority k in
    if k.lock_nest == 0 then dispatch priority (k.priority_table priority) k else k

unfoldable pub start_with : List ℕ → Kernel → Kernel
start_with [] k = fail k
start_with (to ∷ rest) k = record k {
  current_thread = some to;
  switches = record { from = none; to = to } ∷ k.switches;
}

-- `rt_system_scheduler_start`
unfoldable pub scheduler_start : Kernel → Kernel
unfolding start_with highest_ready_priority
scheduler_start k = start_with (k.priority_table (highest_ready_priority k)) k

-- `rt_schedule_insert_thread`
unfoldable pub insert_thread : ℕ → Kernel → Kernel
insert_thread t k =
    let b = with_stat thread_ready (k.thread t) in
    record (set_thread t b k) {
      priority_table =
          update k.priority_table b.current_priority
            (k.priority_table b.current_priority ++ t ∷ []);
      ready_group = bit_or k.ready_group b.number_mask;
    }

-- `rt_schedule_remove_thread`
unfoldable pub remove_thread : ℕ → Kernel → Kernel
remove_thread t k =
    let b = k.thread t in
    let k' = unlink t k in
    record k' {
      ready_group =
          if is_empty (k'.priority_table b.current_priority)
          then bit_and k.ready_group (2 ^ 32 - 1 - b.number_mask)
          else k.ready_group;
    }

-- `rt_enter_critical`; the counter is an `rt_int16_t`
unfoldable pub enter_critical : Kernel → Kernel
enter_critical k = record k { lock_nest = (k.lock_nest + 1) % 2 ^ 16 }

-- `rt_exit_critical`: a counter at most 0 after the decrement unlocks the scheduler.
unfoldable pub exit_critical : Kernel → Kernel
unfolding schedule
exit_critical k =
    let nest = (k.lock_nest + 2 ^ 16 - 1) % 2 ^ 16 in
    if (nest == 0) || leb (2 ^ 15) nest
    then (let unlocked = record k { lock_nest = 0 } in
        elim k.current_thread [ none ↦ unlocked | some t ↦ schedule unlocked ])
    else record k { lock_nest = nest }

-- `rt_critical_level`, an `rt_uint16_t`
unfoldable pub critical_level : Kernel → ℕ
critical_level k = k.lock_nest
