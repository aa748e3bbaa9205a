-- ===== src/Clock.antt =====
-- os/rt-thread-nano/src/clock.c, and the interrupt nesting of os/rt-thread-nano/src/irq.c. The
-- port sets RT_TICK_PER_SECOND to 10000.
pub mod Slice
pub mod Safe
pub mod Due
pub mod Ends
pub mod Tick
pub mod Sleep
pub mod Delay
use lltrisc_v.Prelude.{
  ℕ, ◌+◌, ◌-◌, ◌*◌, ◌/◌, ◌%◌, ◌^◌, Bool, true, false, Option, none, some, ◌==◌, if◌then◌else◌, ltb,
}
use lltrisc_v.Kernel.State.{Kernel, Thread, Timeout}
use lltrisc_v.Kernel.Lists.{set_thread, fail}
use lltrisc_v.Timer.{timer_check}
use lltrisc_v.Thread.{thread_yield, run_timeout}

-- `rt_tick_get`
unfoldable pub tick_get : Kernel → ℕ
tick_get k = k.tick

-- `rt_tick_set`
unfoldable pub tick_set : ℕ → Kernel → Kernel
tick_set tick k = record k { tick = tick }

-- The count down of the time slice in `rt_tick_increase`; a slice that has run out is filled again,
-- and the thread yields.
unfoldable pub count_slice : ℕ → Kernel → Kernel
count_slice t k =
    let b = k.thread t in
    let left = (b.remaining_tick + 2 ^ 32 - 1) % 2 ^ 32 in
    let k1 = set_thread t (record b { remaining_tick = left }) k in
    let k2 = (thread_yield (set_thread t (record b { remaining_tick = b.init_tick }) k)).1 in
    if left == 0 then k2 else k1

-- `rt_tick_increase`, with the functions of the application's timers and the fuel of `timer_check`
unfoldable pub tick_increase : (ℕ → ℕ → Kernel → Kernel) → ℕ → Kernel → Option Kernel
tick_increase app fuel k =
    let k1 = record k { tick = (k.tick + 1) % 2 ^ 32 } in
    elim k.current_thread [
      | none ↦ some (fail k1)
      | some t ↦ timer_check (run_timeout app) fuel (count_slice t k1)
    ]

-- RT_TICK_PER_SECOND, RT_WAITING_FOREVER
abbrev pub tick_per_second : ℕ
tick_per_second = 10000

abbrev pub waiting_forever : ℕ
waiting_forever = 2 ^ 32 - 1

-- `rt_tick_from_millisecond`, for the bit pattern of an `rt_int32_t`; the products wrap
unfoldable pub tick_from_millisecond : ℕ → ℕ
tick_from_millisecond ms =
    let tick = tick_per_second * (ms / 1000) % 2 ^ 32 in
    if ltb ms (2 ^ 31)
    then (tick + (tick_per_second * (ms % 1000) + 999) / 1000) % 2 ^ 32
    else waiting_forever

-- `rt_interrupt_enter`; the counter is an `rt_uint8_t`
unfoldable pub interrupt_enter : Kernel → Kernel
interrupt_enter k = record k { interrupt_nest = (k.interrupt_nest + 1) % 2 ^ 8 }

-- `rt_interrupt_leave`
unfoldable pub interrupt_leave : Kernel → Kernel
interrupt_leave k = record k { interrupt_nest = (k.interrupt_nest + 2 ^ 8 - 1) % 2 ^ 8 }

-- `rt_interrupt_get_nest`
unfoldable pub interrupt_get_nest : Kernel → ℕ
interrupt_get_nest k = k.interrupt_nest
