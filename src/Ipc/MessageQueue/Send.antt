-- ===== src/Ipc/MessageQueue/Send.antt =====
-- `rt_mq_send_wait`, `rt_mq_send` and `rt_mq_urgent`, os/rt-thread-nano/src/ipc.c. A call is one step up to
-- the schedule call: what other code does while interrupts are on inside it is not seen.
use lltrisc_v.Prelude.{
  ℕ, ◌+◌, not, ◌&&◌, none, some, ◌==◌, if◌then◌else◌, ltb, is_empty, is_some, update,
}
use lltrisc_v.Kernel.State.{Kernel, eok, error, efull}
use lltrisc_v.Kernel.Lists.{set_error, fail}
use lltrisc_v.Scheduler.{schedule}
use lltrisc_v.Memory.{Memory}
use lltrisc_v.Memory.Copy.{rt_memcpy}
use lltrisc_v.Ipc.{Outcome, returns, waits, ipc_list_resume, wait_in}
use lltrisc_v.Ipc.Mailbox.{time_left}
use lltrisc_v.Ipc.MessageQueue.{
  MessageQueue, mq_entry_max, message_header, take_free, link_last, link_first,
}

-- The end of a send: the message is counted, and a waiting receiver is resumed.
unfoldable pub count_sent :
    MessageQueue → Memory → Kernel → Outcome × MessageQueue × Memory × Kernel
count_sent q m k =
    let k' =
      if not (is_empty (k.suspend_list q.suspend_thread))
      then schedule (ipc_list_resume q.suspend_thread k)
      else k in
    if ltb q.entry mq_entry_max
    then (returns eok, record q { entry = q.entry + 1 }, m, k')
    else (returns efull, q, m, k)

-- `rt_mq_send_wait` once it has the free block `msg`
unfoldable pub mq_put :
    MessageQueue
    → (msg buffer size : ℕ) → Memory
    → Kernel
    → Outcome × MessageQueue × Memory × Kernel
mq_put q msg buffer size m k =
    let taken = take_free q msg in
    let ready = record taken { next = update taken.next msg none } in
    count_sent (link_last ready msg) (rt_memcpy m (msg + message_header) buffer size) k

-- A round of the loop of `rt_mq_send_wait`, and the end where the loop is left.
unfoldable pub mq_send_round :
    MessageQueue
    → (buffer size timeout : ℕ) → Memory
    → Kernel
    → Outcome × MessageQueue × Memory × Kernel
mq_send_round q buffer size timeout m k = elim q.msg_queue_free [
  | some msg ↦ mq_put q msg buffer size m k
  | none ↦ elim k.current_thread [
    | none ↦ (waits, q, m, fail k)
    | some t ↦
        if timeout == 0
        then (returns efull, q, m, set_error t eok k)
        else (waits, q, m, wait_in q.suspend_sender_thread t q.flag timeout (set_error t eok k))
  ]
]

-- `rt_mq_send_wait` up to the first `rt_schedule`
unfoldable pub mq_send_wait :
    MessageQueue
    → (buffer size timeout : ℕ) → Memory
    → Kernel
    → Outcome × MessageQueue × Memory × Kernel
mq_send_wait q buffer size timeout m k =
    if ltb q.msg_size size
    then (returns error, q, m, k)
    else if not (is_some q.msg_queue_free) && timeout == 0
    then (returns efull, q, m, k)
    else mq_send_round q buffer size timeout m k

-- `rt_mq_send_wait` after `rt_schedule`, in thread `t`
unfoldable pub mq_send_resumed :
    MessageQueue
    → (buffer size timeout start t : ℕ) → Memory
    → Kernel
    → Outcome × MessageQueue × Memory × Kernel
mq_send_resumed q buffer size timeout start t m k = elim (k.thread t).error [
  | eok ↦ mq_send_round q buffer size (time_left timeout start k.tick) m k
  | e ↦ (returns e, q, m, k)
]

-- `rt_mq_send`
unfoldable pub mq_send :
    MessageQueue → (buffer size : ℕ) → Memory → Kernel → Outcome × MessageQueue × Memory × Kernel
mq_send q buffer size m k = mq_send_wait q buffer size 0 m k

-- `rt_mq_urgent`
unfoldable pub mq_urgent :
    MessageQueue → (buffer size : ℕ) → Memory → Kernel → Outcome × MessageQueue × Memory × Kernel
mq_urgent q buffer size m k =
    if ltb q.msg_size size then (returns error, q, m, k) else elim q.msg_queue_free [
      | none ↦ (returns efull, q, m, k)
      | some msg ↦
          count_sent (link_first (take_free q msg) msg)
            (rt_memcpy m (msg + message_header) buffer size) k
    ]
