-- ===== src/Ipc/MessageQueue/Life.antt =====
-- A message queue at its start, and after a reset.
use native.Mathlib.Nat.{suc-mul, add-zero, zero-add}
use native.Mathlib.Numerals.{add-one}
use lltrisc_v.Prelude.{
  ℕ, zero, suc, ◌+◌, ◌*◌, ◌/◌, ◌%◌, ◌^◌, ◌≤◌, ◌≡◌, ◌≢◌, ◌∙◌, inl, inr, refl, sym, ap, subst, arith,
  true, false, Option, none, some, List, [], ◌∷◌, ◌==◌, update, mem, nodup, length, length-append,
  Bool-cases, ==_refl,
}
use lltrisc_v.Kernel.State.{Kernel, eok, error, has_stat, thread_ready}
use lltrisc_v.Scheduler.Invariant.{IsScheduled}
use lltrisc_v.Scheduler.Highest.{schedule-same, schedule-IsScheduled}
use lltrisc_v.Ipc.{ipc_list_resume_all}
use lltrisc_v.Ipc.Suspend.{ipc_list_resume_all-AllResumed}
use lltrisc_v.Ipc.Sem.{cmd_reset}
use lltrisc_v.Ipc.Mailbox.Life.{both_woken}
use lltrisc_v.Ipc.MessageQueue.{
  MessageQueue, message_header, link_free, mq_init, align, give_free, unlink_head,
}
use lltrisc_v.Ipc.MessageQueue.Receive.{release_all, mq_control}
use lltrisc_v.Ipc.MessageQueue.Chain.{IsChain, IsChain-update, IsSpaced, IsQueue}
use lltrisc_v.Ipc.MessageQueue.Links.{get_first-IsQueue}

-- The first `n` blocks of a pool, the last of them first.
abbrev pub pool_blocks : (pool size n : ℕ) → List ℕ
pool_blocks pool size zero = []
pool_blocks pool size (suc n) = (pool + n * (size + message_header)) ∷ pool_blocks pool size n

module _ (pool size : ℕ) where
  below :
      (n x : ℕ)
      → mem x (pool_blocks pool size n) ≡ true
      → x + message_header + size ≤ pool + n * (size + message_header)
  below zero x h = ground (arith, h)
  below (suc n) x h =
      let step = suc-mul n (size + message_header) in
      elim (Bool-cases (pool + n * (size + message_header) == x)) [
        | inl e ↦ ground (arith, e, step)
        | inr e ↦ ground (arith, e, step, h, below n x)
      ]

  not_yet : (n : ℕ) → mem (pool + n * (size + message_header)) (pool_blocks pool size n) ≡ false
  not_yet n =
      elim (Bool-cases (mem (pool + n * (size + message_header)) (pool_blocks pool size n))) [
        | inl e ↦ absurd (omega (arith, below n (pool + n * (size + message_header)) e))
        | inr e ↦ e
      ]

  blocks_once : (n : ℕ) → nodup (pool_blocks pool size n) ≡ true
  blocks_once zero = refl
  blocks_once (suc n) = ground (arith, not_yet n, blocks_once n)

  blocks-IsSpaced : (n : ℕ) → IsSpaced size (pool_blocks pool size n)
  blocks-IsSpaced zero a b h k ne = ground (arith, h)
  blocks-IsSpaced (suc n) a b h k ne =
      ground (arith, h, k, ne, below n a, below n b, blocks-IsSpaced n a b)

  blocks_number : (n : ℕ) → length (pool_blocks pool size n) ≡ n
  blocks_number zero = refl
  blocks_number (suc n) = ap suc (blocks_number n)

  link_free-IsChain :
      (left temp : ℕ) (free : Option ℕ) (next : ℕ → Option ℕ)
      → IsChain next free (pool_blocks pool size temp)
      → let (free', next') = link_free pool size temp left free next in
        IsChain next' free' (pool_blocks pool size (temp + left))
  unfolding link_free
  link_free-IsChain zero temp free next c = rw (add-zero temp) c
  link_free-IsChain (suc left) temp free next c =
      let head = pool + temp * (size + message_header) in
      let more : temp + suc left ≡ temp + 1 + left = omega arith in
      rw more (
        link_free-IsChain left (temp + 1) (some head) (update next head free) (
          rw (add-one temp) (
            refl,
            rw (==_refl head)
                (IsChain-update next free (pool_blocks pool size temp) head free (not_yet temp) c),
          )))

-- rt_mq_init, on a pool for at least one block and at most 65535 bytes a message, makes an empty queue that
-- is well formed: all blocks that the pool holds are free, and none overlaps another.
pub mq_init-IsQueue :
    (o senders pool msg_size pool_size flag : ℕ) (next : ℕ → Option ℕ) (k : Kernel)
    → let q = (mq_init o senders pool msg_size pool_size flag next k).0 in
      IsQueue q [] (pool_blocks pool q.msg_size q.max_msgs)
unfolding mq_init
mq_init-IsQueue o senders pool msg_size pool_size flag next k =
    let size = align msg_size % 2 ^ 16 in
    let max = pool_size / (size + message_header) % 2 ^ 16 in
    record {
      used_chain = refl;
      free_chain = rw (zero-add max) at (link_free-IsChain pool size max 0 none next refl);
      tail = refl;
      once = blocks_once pool size max;
      counted = refl;
      room = blocks_number pool size max;
      fits = omega arith;
      spaced = blocks-IsSpaced pool size max;
    }

-- The list backwards, in front of another.
abbrev pub reverse_onto : List ℕ → List ℕ → List ℕ
reverse_onto [] ys = ys
reverse_onto (x ∷ xs) ys = reverse_onto xs (x ∷ ys)

module _ (q : MessageQueue) (b : ℕ) (used free : List ℕ) where
  release_step :
      IsQueue (record q { entry = suc (length used) }) (b ∷ used) free
      → IsQueue (record (give_free (unlink_head q b) b) { entry = length used }) used (b ∷ free)
  unfolding unlink_head
  release_step i =
      let j = get_first-IsQueue (record q { entry = suc (length used) }) b used free i in
      record {
        used_chain = j.used_chain;
        free_chain = j.free_chain;
        tail = j.tail;
        once = j.once;
        counted = refl;
        room = j.room;
        fits = j.fits;
        spaced = j.spaced;
      }

-- With fuel for as many rounds as there are messages, the loop frees all of them.
release_all-IsQueue :
    (fuel : ℕ) (q : MessageQueue) (used free : List ℕ)
    → length used ≤ fuel
    → IsQueue (record q { entry = length used }) used free
    → IsQueue (record (release_all fuel q) { entry = 0 }) [] (reverse_onto used free)
unfolding release_all
release_all-IsQueue zero q [] free h i = i
release_all-IsQueue zero q (b ∷ used) free h i = absurd (omega (arith, h))
release_all-IsQueue (suc fuel) q [] free h i =
    let done : release_all (suc fuel) q ≡ q = ground (arith, i.used_chain) in
    subst (λ r. IsQueue (record r { entry = 0 }) [] free) (sym done) i
release_all-IsQueue (suc fuel) q (b ∷ used) free h i =
    let next_round = give_free (unlink_head q b) b in
    let round : release_all (suc fuel) q ≡ release_all fuel next_round =
      ground (arith, i.used_chain.0) in
    let rest =
      release_all-IsQueue fuel next_round used (b ∷ free) (omega (arith, h))
        (release_step q b used free i) in
    subst (λ r. IsQueue (record r { entry = 0 }) [] (reverse_onto used (b ∷ free))) (sym round) rest

-- In a consistent state RT_IPC_CMD_RESET drops all messages of a queue that is well formed and leaves it
-- one, with their blocks free; the threads that waited to receive are ready, with the error -RT_ERROR, and
-- no thread waits to send any more. Any other command is an error and changes nothing.
pub mq_control-reset :
    (q : MessageQueue) (used free : List ℕ) (cmd : ℕ) (k : Kernel)
    → IsScheduled k
    → IsQueue q used free
    → let (e, q', k') = mq_control q cmd k in
      (cmd ≡ cmd_reset
        → (e ≡ eok)
          × IsQueue q' [] (reverse_onto used free)
          × IsScheduled k'
          × (k'.suspend_list q.suspend_sender_thread ≡ [])
          × ((u : ℕ)
              → mem u (k.suspend_list q.suspend_thread) ≡ true
              → (has_stat thread_ready (k'.thread u) ≡ true) × ((k'.thread u).error ≡ error)))
      × (cmd ≢ cmd_reset → (e ≡ error) × (q' ≡ q) × (k' ≡ k))
unfolding mq_control
mq_control-reset q used free cmd k s i =
    let k1 = ipc_list_resume_all q.suspend_thread k in
    let k2 = ipc_list_resume_all q.suspend_sender_thread k1 in
    let a = ipc_list_resume_all-AllResumed k q.suspend_thread s in
    let b = ipc_list_resume_all-AllResumed k1 q.suspend_sender_thread a.scheduled in
    let all = schedule-same k2 in
    (
      λ c.
          rw (c, mq_control)
            (
              refl,
              release_all-IsQueue q.max_msgs q used free
                  (omega (arith, i.room, length-append used free)) (rw (← i.counted) i),
              schedule-IsScheduled k2 b.scheduled,
              ap (λ f. f q.suspend_sender_thread) all.suspend_list ∙ b.list,
              λ u h. rw all.thread (both_woken q.suspend_thread q.suspend_sender_thread k s u h),
            ),
      λ c. ground (arith, c),
    )
