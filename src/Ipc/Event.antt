-- ===== src/Ipc/Event.antt =====
-- Events, os/rt-thread-nano/src/ipc.c: threads that wait for all or for some bits of a set.
pub mod Bits
pub mod Delivery
pub mod Send
pub mod Offer
pub mod Receive
use lltrisc_v.Prelude.{
  ℕ, ◌+◌, ◌-◌, ◌^◌, Bool, true, false, not, ◌&&◌, Option, none, some, List, [], ◌∷◌, ◌==◌,
  if◌then◌else◌, bit_and, bit_or,
}
use lltrisc_v.Kernel.State.{Kernel, Thread, Err, eok, error, etimeout, einval}
use lltrisc_v.Kernel.Lists.{set_thread, set_error, fail}
use lltrisc_v.Scheduler.{schedule}
use lltrisc_v.Thread.{thread_resume}
use lltrisc_v.Ipc.{Outcome, returns, waits, ipc_object_init, ipc_list_resume_all, wait_in}
use lltrisc_v.Ipc.Sem.{cmd_reset}

-- `struct rt_event`; the list is named by its head.
pub record Event : Type 0 where
  pub suspend_thread : ℕ
  pub flag : ℕ
  pub set : ℕ

-- RT_EVENT_FLAG_AND, _OR, _CLEAR
abbrev pub flag_and : ℕ
flag_and = 1

abbrev pub flag_or : ℕ
flag_or = 2

abbrev pub flag_clear : ℕ
flag_clear = 4

abbrev pub has_flag : ℕ → ℕ → Bool
has_flag info flag = not (bit_and info flag == 0)

-- `set &= ~bits`
abbrev pub without : ℕ → ℕ → ℕ
without bits set = bit_and set (2 ^ 32 - 1 - bits)

-- `rt_event_init`, up to the object container
unfoldable pub event_init : (o flag : ℕ) → Kernel → Event × Kernel
event_init o flag k = (record { suspend_thread = o; flag = flag; set = 0 }, ipc_object_init o k)

-- `rt_event_detach`, up to the object container
unfoldable pub event_detach : Event → Kernel → Err × Kernel
event_detach e k = (eok, ipc_list_resume_all e.suspend_thread k)

-- What `rt_event_send` finds of a waiting thread: that its bits have come, with the set that the
-- thread gets, that they have not, or that it asked for neither all nor some of them.
pub data Match : Type 0 where
  matched : ℕ → Match
  unmatched invalid : Match

unfoldable pub event_match : (info wanted set : ℕ) → Match
event_match info wanted set =
    if has_flag info flag_and
    then (if bit_and wanted set == wanted then matched wanted else unmatched)
    else if has_flag info flag_or
    then (if bit_and wanted set == 0 then unmatched else matched (bit_and wanted set))
    else invalid

-- The set after a thread has got `bits` of it.
unfoldable pub take_bits : (info bits set : ℕ) → ℕ
take_bits info bits set = if has_flag info flag_clear then without bits set else set

-- The thread whose bits have come is resumed.
unfoldable pub deliver : ℕ → ℕ → Kernel → Kernel
deliver t bits k = (thread_resume t (set_thread t (record (k.thread t) { event_set = bits }) k)).1

-- What the walk of `rt_event_send` has done so far.
pub record Sent : Type 0 where
  pub code : Err
  pub set : ℕ
  pub need_schedule : Bool
  pub kernel : Kernel

-- The walk along the waiting threads.
unfoldable pub send_walk : List ℕ → ℕ → Bool → Kernel → Sent
send_walk [] set need k = record { code = eok; set = set; need_schedule = need; kernel = k }
send_walk (t ∷ ts) set need k =
    let b = k.thread t in
    elim (event_match b.event_info b.event_set set) [
      | invalid ↦ record { code = einval; set = set; need_schedule = false; kernel = k }
      | unmatched ↦ send_walk ts set need k
      | matched bits ↦ send_walk ts (take_bits b.event_info bits set) true (deliver t bits k)
    ]

-- `rt_event_send`
unfoldable pub event_send : Event → ℕ → Kernel → Err × Event × Kernel
event_send e set k =
    let r = send_walk (k.suspend_list e.suspend_thread) (bit_or e.set set) false k in
    if set == 0
    then (error, e, k)
    else (r.code, record e { set = r.set }, if r.need_schedule then schedule r.kernel else r.kernel)

-- The test of `rt_event_recv`
unfoldable pub recv_status : (option wanted set : ℕ) → Bool
recv_status option wanted set =
    if has_flag option flag_and
    then bit_and set wanted == wanted
    else has_flag option flag_or && not (bit_and set wanted == 0)

-- What the thread notes in its control block.
abbrev pub with_info : (t option bits : ℕ) → Kernel → Kernel
with_info t option bits k =
    set_thread t (record (k.thread t) { event_set = bits; event_info = option }) k

-- `rt_event_recv` by thread `t`, its error cleared, up to `rt_schedule`: the outcome and what is
-- received.
unfoldable pub recv_by :
    ℕ → Event → (wanted option timeout : ℕ) → Kernel → Outcome × Option ℕ × Event × Kernel
recv_by t e wanted option timeout k =
    let got = bit_and e.set wanted in
    if recv_status option wanted e.set
    then (
      returns eok,
      some got,
      record e { set = take_bits option wanted e.set },
      with_info t option got k,
    )
    else if timeout == 0
    then (returns etimeout, none, e, set_error t etimeout k)
    else (waits, none, e, wait_in e.suspend_thread t e.flag timeout (with_info t option wanted k))

-- `rt_event_recv` up to `rt_schedule`
unfoldable pub event_recv :
    Event → (wanted option timeout : ℕ) → Kernel → Outcome × Option ℕ × Event × Kernel
event_recv e wanted option timeout k =
    if wanted == 0 then (returns error, none, e, k) else elim k.current_thread [
      | none ↦ (waits, none, e, fail k)
      | some t ↦ recv_by t e wanted option timeout (set_error t eok k)
    ]

-- `rt_event_recv` after `rt_schedule`, in thread `t`
unfoldable pub event_recv_resumed : ℕ → Kernel → Err × Option ℕ
event_recv_resumed t k = elim (k.thread t).error [
  | eok ↦ (eok, some (k.thread t).event_set)
  | e ↦ (e, none)
]

-- `rt_event_control`
unfoldable pub event_control : Event → ℕ → Kernel → Err × Event × Kernel
event_control e cmd k =
    if cmd == cmd_reset
    then (eok, record e { set = 0 }, schedule (ipc_list_resume_all e.suspend_thread k))
    else (error, e, k)
