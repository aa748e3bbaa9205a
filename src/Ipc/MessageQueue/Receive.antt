-- ===== src/Ipc/MessageQueue/Receive.antt =====
-- `rt_mq_recv` and `rt_mq_control`, os/rt-thread-nano/src/ipc.c.
use lltrisc_v.Prelude.{
  ℕ, zero, suc, ◌+◌, ◌-◌, not, ◌&&◌, none, some, ◌==◌, if◌then◌else◌, ltb, is_empty,
}
use lltrisc_v.Kernel.State.{Kernel, Err, eok, error, etimeout}
use lltrisc_v.Kernel.Lists.{set_error, fail}
use lltrisc_v.Scheduler.{schedule}
use lltrisc_v.Memory.{Memory}
use lltrisc_v.Memory.Copy.{rt_memcpy}
use lltrisc_v.Ipc.{Outcome, returns, waits, ipc_list_resume, ipc_list_resume_all, wait_in}
use lltrisc_v.Ipc.Sem.{cmd_reset}
use lltrisc_v.Ipc.Mailbox.{time_left}
use lltrisc_v.Ipc.MessageQueue.{MessageQueue, message_header, give_free, unlink_head}

-- `size > mq->msg_size ? mq->msg_size : size`
abbrev pub received_size : MessageQueue → ℕ → ℕ
received_size q size = if ltb q.msg_size size then q.msg_size else size

-- `rt_mq_recv` once there is a message. Its head is not looked at before it is used: without one the
-- source reads through RT_NULL, the fault flag here.
unfoldable pub mq_get :
    MessageQueue → (buffer size : ℕ) → Memory → Kernel → Outcome × MessageQueue × Memory × Kernel
mq_get q buffer size m k = elim q.msg_queue_head [
  | none ↦ (returns eok, q, m, fail k)
  | some msg ↦
      let out = unlink_head q msg in
      let counted = record out { entry = if ltb 0 q.entry then q.entry - 1 else q.entry } in
      let m' = rt_memcpy m buffer (msg + message_header) (received_size q size) in
      let k' =
        if not (is_empty (k.suspend_list q.suspend_sender_thread))
        then schedule (ipc_list_resume q.suspend_sender_thread k)
        else k in
      (returns eok, give_free counted msg, m', k')
]

-- A round of the loop of `rt_mq_recv`, and the end where the loop is left.
unfoldable pub mq_recv_round :
    MessageQueue
    → (buffer size timeout : ℕ) → Memory
    → Kernel
    → Outcome × MessageQueue × Memory × Kernel
mq_recv_round q buffer size timeout m k =
    if q.entry == 0
    then elim k.current_thread [
      | none ↦ (waits, q, m, fail k)
      | some t ↦
          if timeout == 0
          then (returns etimeout, q, m, set_error t etimeout k)
          else (waits, q, m, wait_in q.suspend_thread t q.flag timeout (set_error t eok k))
    ]
    else mq_get q buffer size m k

-- `rt_mq_recv` up to the first `rt_schedule`
unfoldable pub mq_recv :
    MessageQueue
    → (buffer size timeout : ℕ) → Memory
    → Kernel
    → Outcome × MessageQueue × Memory × Kernel
mq_recv q buffer size timeout m k =
    if (q.entry == 0) && (timeout == 0)
    then (returns etimeout, q, m, k)
    else mq_recv_round q buffer size timeout m k

-- `rt_mq_recv` after `rt_schedule`, in thread `t`
unfoldable pub mq_recv_resumed :
    MessageQueue
    → (buffer size timeout start t : ℕ) → Memory
    → Kernel
    → Outcome × MessageQueue × Memory × Kernel
mq_recv_resumed q buffer size timeout start t m k = elim (k.thread t).error [
  | eok ↦ mq_recv_round q buffer size (time_left timeout start k.tick) m k
  | e ↦ (returns e, q, m, k)
]

-- `while (mq->msg_queue_head != RT_NULL)`, a round for a unit of fuel
unfoldable pub release_all : (fuel : ℕ) → MessageQueue → MessageQueue
release_all zero q = q
release_all (suc fuel) q = elim q.msg_queue_head [
  | none ↦ q
  | some msg ↦ release_all fuel (give_free (unlink_head q msg) msg)
]

-- `rt_mq_control`; a queue holds at most `max_msgs` messages
unfoldable pub mq_control : MessageQueue → (cmd : ℕ) → Kernel → Err × MessageQueue × Kernel
mq_control q cmd k =
    let k' = ipc_list_resume_all q.suspend_sender_thread (ipc_list_resume_all q.suspend_thread k) in
    if cmd == cmd_reset
    then (eok, record (release_all q.max_msgs q) { entry = 0 }, schedule k')
    else (error, q, k)
