-- ===== src/Ipc/Mailbox.antt =====
-- Mailboxes, os/rt-thread-nano/src/ipc.c. The pool is a store of words; the buffer runs in it from
-- `out_offset` on.
pub mod Queue
pub mod Life
use lltrisc_v.Prelude.{
  ℕ, ◌+◌, ◌-◌, ◌%◌, ◌^◌, Bool, true, false, not, ◌&&◌, Option, none, some, List, [], ◌∷◌, ◌==◌,
  if◌then◌else◌, ltb, leb, is_empty, update,
}
use lltrisc_v.Kernel.State.{Kernel, Thread, Err, eok, error, etimeout, efull}
use lltrisc_v.Kernel.Lists.{set_error, fail}
use lltrisc_v.Scheduler.{schedule}
use lltrisc_v.Timer.{tick_sub}
use lltrisc_v.Ipc.{
  Outcome, returns, waits, is_positive, ipc_object_init, ipc_list_resume, ipc_list_resume_all,
  wait_in,
}
pub use lltrisc_v.Ipc.Sem.{cmd_reset}

-- `struct rt_mailbox`; the two lists are named by their heads.
pub record Mailbox : Type 0 where
  pub suspend_thread : ℕ
  pub suspend_sender_thread : ℕ
  pub flag : ℕ
  pub msg_pool : ℕ → ℕ
  pub size : ℕ
  pub entry : ℕ
  pub in_offset : ℕ
  pub out_offset : ℕ

-- RT_MB_ENTRY_MAX
abbrev pub mb_entry_max : ℕ
mb_entry_max = 2 ^ 16 - 1

-- `rt_mb_init`, up to the object container
unfoldable pub mb_init :
    (o senders : ℕ) → (msgpool : ℕ → ℕ) → (size flag : ℕ) → Kernel → Mailbox × Kernel
mb_init o senders msgpool size flag k = (
  record {
    suspend_thread = o;
    suspend_sender_thread = senders;
    flag = flag;
    msg_pool = msgpool;
    size = size % 2 ^ 16;
    entry = 0;
    in_offset = 0;
    out_offset = 0;
  },
  ipc_object_init senders (ipc_object_init o k),
)

-- `rt_mb_detach`, up to the object container
unfoldable pub mb_detach : Mailbox → Kernel → Err × Kernel
mb_detach m k =
    (eok, ipc_list_resume_all m.suspend_sender_thread (ipc_list_resume_all m.suspend_thread k))

-- `++ offset; if (offset >= size) offset = 0`
abbrev pub next_offset : ℕ → ℕ → ℕ
next_offset size i = let j = (i + 1) % 2 ^ 16 in if leb size j then 0 else j

-- The end of `rt_mb_send_wait`: the message goes in, and a waiting receiver is resumed.
unfoldable pub mb_put : Mailbox → ℕ → Kernel → Outcome × Mailbox × Kernel
mb_put m value k =
    let m' = record m {
      msg_pool = update m.msg_pool m.in_offset value;
      in_offset = next_offset m.size m.in_offset;
    } in
    let k' =
      if not (is_empty (k.suspend_list m.suspend_thread))
      then schedule (ipc_list_resume m.suspend_thread k)
      else k in
    if ltb m.entry mb_entry_max
    then (returns eok, record m' { entry = m.entry + 1 }, k')
    else (returns efull, m', k)

-- A round of the loop of `rt_mb_send_wait`, and the end where the loop is left.
unfoldable pub mb_send_round : Mailbox → (value timeout : ℕ) → Kernel → Outcome × Mailbox × Kernel
mb_send_round m value timeout k =
    if m.entry == m.size
    then elim k.current_thread [
      | none ↦ (waits, m, fail k)
      | some t ↦
          if timeout == 0
          then (returns efull, m, set_error t eok k)
          else (waits, m, wait_in m.suspend_sender_thread t m.flag timeout (set_error t eok k))
    ]
    else mb_put m value k

-- `rt_mb_send_wait` up to the first `rt_schedule`
unfoldable pub mb_send_wait : Mailbox → (value timeout : ℕ) → Kernel → Outcome × Mailbox × Kernel
mb_send_wait m value timeout k =
    if (m.entry == m.size) && (timeout == 0)
    then (returns efull, m, k)
    else mb_send_round m value timeout k

-- The time that is left of a positive timeout of a wait begun at tick `start`.
unfoldable pub time_left : (timeout start now : ℕ) → ℕ
time_left timeout start now =
    let left = tick_sub timeout (tick_sub now start) in
    if is_positive timeout then (if leb (2 ^ 31) left then 0 else left) else timeout

-- `rt_mb_send_wait` after `rt_schedule`, in thread `t`
unfoldable pub mb_send_resumed :
    Mailbox → (value timeout start t : ℕ) → Kernel → Outcome × Mailbox × Kernel
mb_send_resumed m value timeout start t k = elim (k.thread t).error [
  | eok ↦ mb_send_round m value (time_left timeout start k.tick) k
  | e ↦ (returns e, m, k)
]

-- `rt_mb_send`
unfoldable pub mb_send : Mailbox → ℕ → Kernel → Outcome × Mailbox × Kernel
mb_send m value k = mb_send_wait m value 0 k

-- The end of `rt_mb_recv`: the oldest message comes out, and a waiting sender is resumed.
unfoldable pub mb_get : Mailbox → Kernel → Outcome × Option ℕ × Mailbox × Kernel
mb_get m k =
    let m' = record m {
      out_offset = next_offset m.size m.out_offset;
      entry = if ltb 0 m.entry then m.entry - 1 else m.entry;
    } in
    let k' =
      if not (is_empty (k.suspend_list m.suspend_sender_thread))
      then schedule (ipc_list_resume m.suspend_sender_thread k)
      else k in
    (returns eok, some (m.msg_pool m.out_offset), m', k')

-- A round of the loop of `rt_mb_recv`, and the end where the loop is left.
unfoldable pub mb_recv_round : Mailbox → ℕ → Kernel → Outcome × Option ℕ × Mailbox × Kernel
mb_recv_round m timeout k =
    if m.entry == 0
    then elim k.current_thread [
      | none ↦ (waits, none, m, fail k)
      | some t ↦
          if timeout == 0
          then (returns etimeout, none, m, set_error t etimeout k)
          else (waits, none, m, wait_in m.suspend_thread t m.flag timeout (set_error t eok k))
    ]
    else mb_get m k

-- `rt_mb_recv` up to the first `rt_schedule`
unfoldable pub mb_recv : Mailbox → ℕ → Kernel → Outcome × Option ℕ × Mailbox × Kernel
mb_recv m timeout k =
    if (m.entry == 0) && (timeout == 0)
    then (returns etimeout, none, m, k)
    else mb_recv_round m timeout k

-- `rt_mb_recv` after `rt_schedule`, in thread `t`
unfoldable pub mb_recv_resumed :
    Mailbox → (timeout start t : ℕ) → Kernel → Outcome × Option ℕ × Mailbox × Kernel
mb_recv_resumed m timeout start t k = elim (k.thread t).error [
  | eok ↦ mb_recv_round m (time_left timeout start k.tick) k
  | e ↦ (returns e, none, m, k)
]

-- `rt_mb_control`
unfoldable pub mb_control : Mailbox → ℕ → Kernel → Err × Mailbox × Kernel
mb_control m cmd k =
    let k' = ipc_list_resume_all m.suspend_sender_thread (ipc_list_resume_all m.suspend_thread k) in
    if cmd == cmd_reset
    then (eok, record m { entry = 0; in_offset = 0; out_offset = 0 }, schedule k')
    else (error, m, k)
