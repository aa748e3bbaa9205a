-- ===== src/Ipc.antt =====
-- The part that all IPC objects of os/rt-thread-nano/src/ipc.c share: their lists of suspended
-- threads, and waiting.
pub mod Suspend
pub mod Waiting
pub mod Order
pub mod Sem
pub mod Mailbox
pub mod Mutex
pub mod Event
pub mod MessageQueue
use lltrisc_v.Prelude.{
  ℕ, zero, suc, ◌+◌, ◌-◌, ◌*◌, ◌/◌, ◌%◌, ◌^◌, Bool, true, false, not, ◌&&◌, Option, none, some,
  List, [], ◌∷◌, ◌++◌, ◌==◌, if◌then◌else◌, ltb, update, length,
}
use lltrisc_v.Kernel.State.{Kernel, Thread, Err, eok, error}
use lltrisc_v.Kernel.Lists.{set_thread, set_error, fail}
use lltrisc_v.Scheduler.{schedule}
use lltrisc_v.Thread.{thread_suspend_call, thread_resume, start_thread_timer}

-- How a call ends that may have to wait: with a code, or at `rt_schedule` with the thread suspended.
pub data Outcome : Type 0 where
  returns : Err → Outcome
  waits : Outcome

-- RT_IPC_FLAG_FIFO, RT_IPC_FLAG_PRIO
abbrev pub flag_fifo : ℕ
flag_fifo = 0

abbrev pub flag_prio : ℕ
flag_prio = 1

-- `time > 0` for the bit pattern of an `rt_int32_t`
abbrev pub is_positive : ℕ → Bool
is_positive time = ltb 0 time && ltb time (2 ^ 31)

abbrev set_list : ℕ → List ℕ → Kernel → Kernel
set_list o ts k = record k { suspend_list = update k.suspend_list o ts }

-- `rt_ipc_object_init`
unfoldable pub ipc_object_init : ℕ → Kernel → Kernel
ipc_object_init o k = set_list o [] k

-- The search of RT_IPC_FLAG_PRIO: before the first thread of a lower priority, else at the end.
unfoldable pub insert_by_priority : (ℕ → Thread) → ℕ → List ℕ → List ℕ
insert_by_priority thread t [] = t ∷ []
insert_by_priority thread t (s ∷ ss) =
    let rest = insert_by_priority thread t ss in
    if ltb (thread t).current_priority (thread s).current_priority then t ∷ s ∷ ss else s ∷ rest

-- `rt_ipc_list_suspend`
unfoldable pub ipc_list_suspend : ℕ → ℕ → ℕ → Kernel → Kernel
ipc_list_suspend o t flag k =
    let k' = (thread_suspend_call t k).1 in
    if flag == flag_fifo
    then set_list o (k'.suspend_list o ++ t ∷ []) k'
    else if flag == flag_prio
    then set_list o (insert_by_priority k'.thread t (k'.suspend_list o)) k'
    else k'

-- `rt_ipc_list_resume`; C takes the head of an empty list for a thread.
unfoldable pub ipc_list_resume : ℕ → Kernel → Kernel
ipc_list_resume o k = elim (k.suspend_list o) [ [] ↦ fail k | t ∷ ts ↦ (thread_resume t k).1 ]

-- The loop of `rt_ipc_list_resume_all`, on fuel.
unfoldable pub resume_all_loop : ℕ → ℕ → Kernel → Kernel
resume_all_loop zero o k = fail k
resume_all_loop (suc fuel) o k = elim (k.suspend_list o) [
  | [] ↦ k
  | t ∷ ts ↦ resume_all_loop fuel o (thread_resume t (set_error t error k)).1
]

-- `rt_ipc_list_resume_all`
unfoldable pub ipc_list_resume_all : ℕ → Kernel → Kernel
ipc_list_resume_all o k = resume_all_loop (length (k.suspend_list o) + 1) o k

-- A wait of the current thread `t`: suspended in list `o`, with its timer started for a positive
-- time, up to and with the call of `rt_schedule`.
unfoldable pub wait_in : ℕ → ℕ → ℕ → ℕ → Kernel → Kernel
wait_in o t flag time k =
    let k1 = ipc_list_suspend o t flag k in
    let k2 = start_thread_timer t time k1 in schedule (if is_positive time then k2 else k1)
