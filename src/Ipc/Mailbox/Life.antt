-- ===== src/Ipc/Mailbox/Life.antt =====
-- A mailbox at its start, after a reset, and the time that a waiting call has left.
use lltrisc_v.Prelude.{
  ℕ, ◌+◌, ◌-◌, ◌%◌, ◌^◌, ◌≤◌, ◌<◌, ◌≡◌, ◌≢◌, refl, ap, ◌∙◌, true, false, [], arith, mem, Bool-cases,
  inl, inr,
}
use lltrisc_v.Kernel.State.{Kernel, eok, error, has_stat, thread_ready}
use lltrisc_v.Scheduler.Invariant.{IsScheduled}
use lltrisc_v.Scheduler.Highest.{schedule-same, schedule-IsScheduled}
use lltrisc_v.Ipc.{is_positive, ipc_list_resume_all}
use lltrisc_v.Ipc.Suspend.{ipc_list_resume_all-AllResumed}
use lltrisc_v.Ipc.Mailbox.{Mailbox, mb_init, mb_control, cmd_reset, mb_entry_max, time_left}
use lltrisc_v.Ipc.Mailbox.Queue.{IsRing, contents}

-- `rt_mb_init` makes an empty mailbox that is a ring, if the pool has from 1 to 65535 words.
pub mb_init-empty :
    (o senders : ℕ) (pool : ℕ → ℕ) (size flag : ℕ) (k : Kernel)
    → 0 < size
    → size ≤ mb_entry_max
    → let m = (mb_init o senders pool size flag k).0 in
      (contents m ≡ []) × IsRing m × (m.size ≡ size)
unfolding mb_init
mb_init-empty o senders pool size flag k some_room fits =
    (refl, ground (arith, some_room, fits), omega (arith, fits))

-- The threads of two lists that are resumed one after the other.
pub both_woken :
    (receivers senders : ℕ) (k : Kernel)
    → IsScheduled k
    → (u : ℕ) → mem u (k.suspend_list receivers) ≡ true
    → let k2 = ipc_list_resume_all senders (ipc_list_resume_all receivers k) in
      (has_stat thread_ready (k2.thread u) ≡ true) × ((k2.thread u).error ≡ error)
both_woken receivers senders k i u h =
    let k1 = ipc_list_resume_all receivers k in
    let a = ipc_list_resume_all-AllResumed k receivers i in
    let b = ipc_list_resume_all-AllResumed k1 senders a.scheduled in
    elim (Bool-cases (mem u (k1.suspend_list senders))) [
      | inl waits ↦ b.woken u waits
      | inr not_there ↦ rw (b.others u not_there) (a.woken u h)
    ]

-- In a consistent state RT_IPC_CMD_RESET empties a mailbox that is a ring and leaves it one; the
-- threads that waited to receive are ready, with the error -RT_ERROR, and no thread waits to send
-- any more. Any other command is an error and changes nothing.
pub mb_control-reset :
    (m : Mailbox) (cmd : ℕ) (k : Kernel)
    → IsScheduled k
    → IsRing m
    → let (e, m', k') = mb_control m cmd k in
      (cmd ≡ cmd_reset
        → (e ≡ eok)
          × (contents m' ≡ [])
          × IsRing m'
          × IsScheduled k'
          × (k'.suspend_list m.suspend_sender_thread ≡ [])
          × ((u : ℕ)
              → mem u (k.suspend_list m.suspend_thread) ≡ true
              → (has_stat thread_ready (k'.thread u) ≡ true) × ((k'.thread u).error ≡ error)))
      × (cmd ≢ cmd_reset → (e ≡ error) × (m' ≡ m) × (k' ≡ k))
unfolding mb_control
mb_control-reset m cmd k i r =
    let k1 = ipc_list_resume_all m.suspend_thread k in
    let k2 = ipc_list_resume_all m.suspend_sender_thread k1 in
    let a = ipc_list_resume_all-AllResumed k m.suspend_thread i in
    let b = ipc_list_resume_all-AllResumed k1 m.suspend_sender_thread a.scheduled in
    let q = schedule-same k2 in
    (
      λ c.
          rw (c, mb_control)
            (
              refl,
              refl,
              ground (arith, r.size_fits, r.out_fits),
              schedule-IsScheduled k2 b.scheduled,
              ap (λ f. f m.suspend_sender_thread) q.suspend_list ∙ b.list,
              λ u h. rw q.thread (both_woken m.suspend_thread m.suspend_sender_thread k i u h),
            ),
      λ c. ground (arith, c),
    )

-- The time that a wait of `timeout` ticks begun at tick `start` still has when fewer than 2^31
-- ticks have passed: less by those ticks, or nothing if they are at least as many; a timeout that
-- is not positive stays.
pub time_left-cases :
    (timeout start elapsed : ℕ)
    → start < 2 ^ 32
    → elapsed < 2 ^ 31
    → let left = time_left timeout start ((start + elapsed) % 2 ^ 32) in
      (is_positive timeout ≡ true → left ≡ timeout - elapsed)
      × (is_positive timeout ≡ false → left ≡ timeout)
unfolding time_left
time_left-cases timeout start elapsed s e = (λ h. ground (arith, h, s, e), λ h. ground (arith, h))
