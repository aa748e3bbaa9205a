-- ===== src/Kernel/State.antt =====
-- The records of os/rt-thread-nano/include/rtdef.h. A pointer is a number; a list head with the
-- nodes behind it is the list of those nodes. A thread's list node `tlist` goes by the thread's
-- number, a timer's row by the timer's.
use lltrisc_v.Prelude.{ℕ, Bool, List, Option, ◌%◌, ◌/◌, ◌*◌, ◌+◌, ◌==◌}

-- `rt_err_t`: RT_EOK, and the negated codes that the modelled functions return
pub data Err : Type 0 where
  eok error etimeout efull einval : Err

pub record Thread : Type 0 where
  pub stat : ℕ
  pub error : Err
  pub init_priority : ℕ
  pub current_priority : ℕ
  pub number_mask : ℕ
  pub event_set : ℕ
  pub event_info : ℕ
  pub init_tick : ℕ
  pub remaining_tick : ℕ
  pub thread_timer : ℕ

-- What a timer calls: `rt_thread_timeout` on a thread, or an application's function on a value.
pub data Timeout : Type 0 where
  thread_timeout : ℕ → Timeout
  callback : ℕ → ℕ → Timeout

-- The flag byte by its bits RT_TIMER_FLAG_ACTIVATED, _PERIODIC and _SOFT_TIMER.
pub record Timer : Type 0 where
  pub activated : Bool
  pub periodic : Bool
  pub soft : Bool
  pub timeout_func : Timeout
  pub init_tick : ℕ
  pub timeout_tick : ℕ

-- The three words through which the trap handler learns of a switch.
pub record SwitchRequest : Type 0 where
  pub from_thread : Option ℕ
  pub to_thread : Option ℕ
  pub flag : ℕ

-- A call of the assembly routine `rt_hw_context_switch`.
pub record Switch : Type 0 where
  pub from : Option ℕ
  pub to : ℕ

pub record Kernel : Type 0 where
  pub thread : ℕ → Thread
  pub timer : ℕ → Timer
  pub priority_table : ℕ → List ℕ
  pub ready_group : ℕ
  pub suspend_list : ℕ → List ℕ
  pub timer_list : List ℕ
  pub fired_list : List ℕ
  pub current_thread : Option ℕ
  pub current_priority : ℕ
  pub lock_nest : ℕ
  pub interrupt_nest : ℕ
  pub tick : ℕ
  pub request : SwitchRequest
  pub switches : List Switch
  pub fault : Bool

-- RT_THREAD_INIT, _READY, _SUSPEND, _CLOSE
abbrev pub thread_init : ℕ
thread_init = 0

abbrev pub thread_ready : ℕ
thread_ready = 1

abbrev pub thread_suspend : ℕ
thread_suspend = 2

abbrev pub thread_close : ℕ
thread_close = 4

-- `stat & RT_THREAD_STAT_MASK`
abbrev pub stat_of : Thread → ℕ
stat_of t = t.stat % 16

-- `value | (stat & ~RT_THREAD_STAT_MASK)`, for a value below 16
abbrev pub with_stat : ℕ → Thread → Thread
with_stat value t = record t { stat = value + t.stat / 16 * 16 }

abbrev pub has_stat : ℕ → Thread → Bool
has_stat value t = stat_of t == value
