-- ===== src/Ipc/Mutex.antt =====
-- Mutexes with priority inheritance, os/rt-thread-nano/src/ipc.c.
pub mod Inherit
pub mod Ownership
pub mod Handover
use lltrisc_v.Prelude.{
  ℕ, ◌+◌, ◌-◌, ◌%◌, ◌^◌, Bool, true, false, not, Option, none, some, List, [], ◌∷◌, ◌==◌,
  if◌then◌else◌, ltb,
}
use lltrisc_v.Kernel.State.{Kernel, Thread, Err, eok, error, etimeout, efull}
use lltrisc_v.Kernel.Lists.{set_error, fail}
use lltrisc_v.Scheduler.{schedule}
use lltrisc_v.Thread.{change_priority}
use lltrisc_v.Ipc.{
  Outcome, returns, waits, ipc_object_init, ipc_list_resume, ipc_list_resume_all, wait_in,
}

-- `struct rt_mutex`; the list is named by its head.
pub record Mutex : Type 0 where
  pub suspend_thread : ℕ
  pub flag : ℕ
  pub value : ℕ
  pub original_priority : ℕ
  pub hold : ℕ
  pub owner : Option ℕ

-- RT_MUTEX_VALUE_MAX, RT_MUTEX_HOLD_MAX
abbrev pub mutex_value_max : ℕ
mutex_value_max = 2 ^ 16 - 1

abbrev pub mutex_hold_max : ℕ
mutex_hold_max = 2 ^ 8 - 1

-- `rt_mutex_init`, up to the object container
unfoldable pub mutex_init : (o flag : ℕ) → Kernel → Mutex × Kernel
mutex_init o flag k = (
  record {
    suspend_thread = o;
    flag = flag;
    value = 1;
    original_priority = 255;
    hold = 0;
    owner = none;
  },
  ipc_object_init o k,
)

-- `rt_mutex_detach`, up to the object container
unfoldable pub mutex_detach : Mutex → Kernel → Err × Kernel
mutex_detach m k = (eok, ipc_list_resume_all m.suspend_thread k)

-- `mutex->owner == thread`
abbrev pub is_owner : ℕ → Option ℕ → Bool
is_owner t none = false
is_owner t (some o) = t == o

-- One more hold, up to the limit.
unfoldable pub hold_once : Mutex → Kernel → Outcome × Mutex × Kernel
hold_once m k =
    if ltb m.hold mutex_hold_max
    then (returns eok, record m { hold = m.hold + 1 }, k)
    else (returns efull, m, k)

-- The owner of a mutex that thread `t` waits for gets its priority, if that is better.
unfoldable pub inherit : Mutex → ℕ → Kernel → Kernel
inherit m t k = elim m.owner [
  | none ↦ fail k
  | some o ↦
      let p = (k.thread t).current_priority in
      let k' = change_priority o p k in if ltb p (k.thread o).current_priority then k' else k
]

-- `rt_mutex_take` by thread `t`, its error cleared
unfoldable pub take_by : ℕ → Mutex → ℕ → Kernel → Outcome × Mutex × Kernel
unfolding hold_once
take_by t m time k =
    let m' = record m {
      value = m.value - 1;
      owner = some t;
      original_priority = (k.thread t).current_priority;
    } in
    if is_owner t m.owner
    then hold_once m k
    else if ltb 0 m.value
    then hold_once m' k
    else if time == 0
    then (returns etimeout, m, set_error t etimeout k)
    else (waits, m, wait_in m.suspend_thread t m.flag time (inherit m t k))

-- `rt_mutex_take` up to `rt_schedule`
unfoldable pub mutex_take : Mutex → ℕ → Kernel → Outcome × Mutex × Kernel
mutex_take m time k = elim k.current_thread [
  | none ↦ (waits, m, fail k)
  | some t ↦ take_by t m time (set_error t eok k)
]

-- `rt_mutex_take` after `rt_schedule`, in thread `t`
unfoldable pub mutex_take_resumed : ℕ → Kernel → Err
mutex_take_resumed t k = (k.thread t).error

-- The owner gets back the priority that it took the mutex with.
unfoldable pub restore : Mutex → ℕ → Kernel → Kernel
restore m t k =
    let k' = change_priority t m.original_priority k in
    if m.original_priority == (k.thread t).current_priority then k else k'

-- The mutex, held no more, goes to the first thread that waits, or becomes free.
unfoldable pub hand_over : Mutex → Kernel → Err × Mutex × Kernel
hand_over m k = elim (k.suspend_list m.suspend_thread) [
  | [] ↦
      if ltb m.value mutex_value_max
      then (eok, record m { value = m.value + 1; owner = none; original_priority = 255 }, k)
      else (efull, m, k)
  | u ∷ us ↦
      let m' = record m { owner = some u; original_priority = (k.thread u).current_priority } in
      if ltb m.hold mutex_hold_max
      then (eok, record m' { hold = m.hold + 1 }, schedule (ipc_list_resume m.suspend_thread k))
      else (efull, m', k)
]

-- `rt_mutex_release` by thread `t`; the count of holds is an `rt_uint8_t`
unfoldable pub release_by : ℕ → Mutex → Kernel → Err × Mutex × Kernel
release_by t m k =
    let m' = record m { hold = (m.hold + 2 ^ 8 - 1) % 2 ^ 8 } in
    let last = hand_over m' (restore m' t k) in
    if not (is_owner t m.owner)
    then (error, m, set_error t error k)
    else if m'.hold == 0
    then last
    else (eok, m', k)

-- `rt_mutex_release`
unfoldable pub mutex_release : Mutex → Kernel → Err × Mutex × Kernel
mutex_release m k = elim k.current_thread [ none ↦ (error, m, fail k) | some t ↦ release_by t m k ]

-- `rt_mutex_control`
unfoldable pub mutex_control : Mutex → ℕ → Kernel → Err × Mutex × Kernel
mutex_control m cmd k = (error, m, k)
