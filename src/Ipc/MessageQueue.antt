-- ===== src/Ipc/MessageQueue.antt =====
-- Message queues, os/rt-thread-nano/src/ipc.c. A block of the pool is a `next` word and the bytes of a
-- message; the `next` words are a store of their own, by the address of the block, and the messages lie in
-- the memory behind them. So memory that is written elsewhere, as a receiver's buffer is, has to lie outside
-- of the pool: in C a write over the first word of a block would change its `next` word.
pub mod Send
pub mod Receive
pub mod Chain
pub mod Sending
pub mod Life
pub mod Receiving
pub mod Links
use lltrisc_v.Prelude.{
  ℕ, zero, suc, ◌+◌, ◌-◌, ◌*◌, ◌/◌, ◌%◌, ◌^◌, Bool, true, false, not, ◌&&◌, Option, none, some,
  List, [], ◌∷◌, ◌==◌, if◌then◌else◌, ltb, leb, is_empty, update, is_some,
}
use lltrisc_v.Kernel.State.{Kernel, Thread, Err, eok, error, etimeout, efull}
use lltrisc_v.Kernel.Lists.{set_error, fail}
use lltrisc_v.Scheduler.{schedule}
use lltrisc_v.Memory.{Memory}
use lltrisc_v.Memory.Copy.{rt_memcpy}
use lltrisc_v.Ipc.{
  Outcome, returns, waits, is_positive, ipc_object_init, ipc_list_resume, ipc_list_resume_all,
  wait_in,
}
use lltrisc_v.Ipc.Sem.{cmd_reset}
use lltrisc_v.Ipc.Mailbox.{time_left}

-- `struct rt_messagequeue`; the two lists are named by their heads, and RT_NULL is `none`.
pub record MessageQueue : Type 0 where
  pub suspend_thread : ℕ
  pub suspend_sender_thread : ℕ
  pub flag : ℕ
  pub msg_pool : ℕ
  pub msg_size : ℕ
  pub max_msgs : ℕ
  pub entry : ℕ
  pub msg_queue_head : Option ℕ
  pub msg_queue_tail : Option ℕ
  pub msg_queue_free : Option ℕ
  pub next : ℕ → Option ℕ

-- RT_MQ_ENTRY_MAX
abbrev pub mq_entry_max : ℕ
mq_entry_max = 2 ^ 16 - 1

-- sizeof(struct rt_mq_message)
abbrev pub message_header : ℕ
message_header = 4

-- `RT_ALIGN(size, RT_ALIGN_SIZE)`, with RT_ALIGN_SIZE 4
unfoldable pub align : ℕ → ℕ
align size = (size + 3) / 4 * 4

-- The loop of `rt_mq_init` over `temp`, `left` rounds of it.
unfoldable pub link_free :
    (pool size temp left : ℕ)
    → (free : Option ℕ) → (next : ℕ → Option ℕ) → Option ℕ × (ℕ → Option ℕ)
link_free pool size temp zero free next = (free, next)
link_free pool size temp (suc left) free next =
    let head = pool + temp * (size + message_header) in
    link_free pool size (temp + 1) left (some head) (update next head free)

-- `rt_mq_init`, up to the object container
unfoldable pub mq_init :
    (o senders msgpool msg_size pool_size flag : ℕ)
    → (next : ℕ → Option ℕ) → Kernel
    → MessageQueue × Kernel
mq_init o senders msgpool msg_size pool_size flag next k =
    let size = align msg_size % 2 ^ 16 in
    let max = pool_size / (size + message_header) % 2 ^ 16 in
    let (free, next') = link_free msgpool size 0 max none next in
    (
      record {
        suspend_thread = o;
        suspend_sender_thread = senders;
        flag = flag;
        msg_pool = msgpool;
        msg_size = size;
        max_msgs = max;
        entry = 0;
        msg_queue_head = none;
        msg_queue_tail = none;
        msg_queue_free = free;
        next = next';
      },
      ipc_object_init senders (ipc_object_init o k),
    )

-- `rt_mq_detach`, up to the object container
unfoldable pub mq_detach : MessageQueue → Kernel → Err × Kernel
mq_detach q k =
    (eok, ipc_list_resume_all q.suspend_sender_thread (ipc_list_resume_all q.suspend_thread k))

-- The block leaves the list of the free ones.
abbrev pub take_free : MessageQueue → ℕ → MessageQueue
take_free q msg = record q { msg_queue_free = q.next msg }

-- The block goes to the list of the free ones.
abbrev pub give_free : MessageQueue → ℕ → MessageQueue
give_free q msg = record q { next = update q.next msg q.msg_queue_free; msg_queue_free = some msg }

-- `if (tail != RT_NULL) tail->next = msg; tail = msg; if (head == RT_NULL) head = msg`
unfoldable pub link_last : MessageQueue → ℕ → MessageQueue
link_last q msg = record q {
  next = elim q.msg_queue_tail [ none ↦ q.next | some tail ↦ update q.next tail (some msg) ];
  msg_queue_tail = some msg;
  msg_queue_head = elim q.msg_queue_head [ none ↦ some msg | some head ↦ some head ];
}

-- `msg->next = head; head = msg; if (tail == RT_NULL) tail = msg`
unfoldable pub link_first : MessageQueue → ℕ → MessageQueue
link_first q msg = record q {
  next = update q.next msg q.msg_queue_head;
  msg_queue_head = some msg;
  msg_queue_tail = elim q.msg_queue_tail [ none ↦ some msg | some tail ↦ some tail ];
}

-- `head = msg->next; if (tail == msg) tail = RT_NULL`
unfoldable pub unlink_head : MessageQueue → ℕ → MessageQueue
unlink_head q msg = record q {
  msg_queue_head = q.next msg;
  msg_queue_tail = elim q.msg_queue_tail [
    | none ↦ none
    | some tail ↦ if tail == msg then none else some tail
  ];
}
