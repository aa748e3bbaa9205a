-- ===== src/Ipc/Sem.antt =====
-- Semaphores, os/rt-thread-nano/src/ipc.c.
pub mod Counting
use lltrisc_v.Prelude.{
  ℕ, ◌+◌, ◌-◌, ◌%◌, ◌^◌, Bool, true, false, not, Option, none, some, List, [], ◌∷◌, ◌==◌,
  if◌then◌else◌, ltb, is_empty,
}
use lltrisc_v.Kernel.State.{Kernel, Thread, Err, eok, error, etimeout, efull}
use lltrisc_v.Kernel.Lists.{set_error, fail}
use lltrisc_v.Scheduler.{schedule}
use lltrisc_v.Ipc.{
  Outcome, returns, waits, ipc_object_init, ipc_list_resume, ipc_list_resume_all, wait_in,
}

-- `struct rt_semaphore`; `suspend_thread` names the list head.
pub record Semaphore : Type 0 where
  pub value : ℕ
  pub suspend_thread : ℕ
  pub flag : ℕ

-- RT_SEM_VALUE_MAX
abbrev pub sem_value_max : ℕ
sem_value_max = 2 ^ 16 - 1

-- `rt_sem_init`, up to the object container
unfoldable pub sem_init : (o value flag : ℕ) → Kernel → Semaphore × Kernel
sem_init o value flag k =
    (record { value = value % 2 ^ 16; suspend_thread = o; flag = flag }, ipc_object_init o k)

-- `rt_sem_detach` and `rt_sem_delete`, up to the object container
unfoldable pub sem_detach : Semaphore → Kernel → Err × Kernel
sem_detach s k = (eok, ipc_list_resume_all s.suspend_thread k)

-- `rt_sem_take` up to `rt_schedule`
unfoldable pub sem_take : Semaphore → ℕ → Kernel → Outcome × Semaphore × Kernel
sem_take s time k =
    if ltb 0 s.value
    then (returns eok, record s { value = s.value - 1 }, k)
    else if time == 0
    then (returns etimeout, s, k)
    else elim k.current_thread [
      | none ↦ (waits, s, fail k)
      | some t ↦ (waits, s, wait_in s.suspend_thread t s.flag time (set_error t eok k))
    ]

-- `rt_sem_take` after `rt_schedule`, in thread `t`
unfoldable pub sem_take_resumed : ℕ → Kernel → Err
sem_take_resumed t k = (k.thread t).error

-- `rt_sem_trytake`
unfoldable pub sem_trytake : Semaphore → Kernel → Outcome × Semaphore × Kernel
sem_trytake s k = sem_take s 0 k

-- `rt_sem_release`
unfoldable pub sem_release : Semaphore → Kernel → Err × Semaphore × Kernel
sem_release s k =
    if not (is_empty (k.suspend_list s.suspend_thread))
    then (eok, s, schedule (ipc_list_resume s.suspend_thread k))
    else if ltb s.value sem_value_max
    then (eok, record s { value = s.value + 1 }, k)
    else (efull, s, k)

-- RT_IPC_CMD_RESET
abbrev pub cmd_reset : ℕ
cmd_reset = 1

-- `rt_sem_control`
unfoldable pub sem_control : Semaphore → (cmd arg : ℕ) → Kernel → Err × Semaphore × Kernel
sem_control s cmd arg k =
    if cmd == cmd_reset
    then (eok, record s { value = arg % 2 ^ 16 }, schedule (ipc_list_resume_all s.suspend_thread k))
    else (error, s, k)
