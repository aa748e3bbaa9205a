-- ===== src/Ipc/MessageQueue/Receiving.antt =====
-- A message queue is a bounded queue: what a receive takes from it.
use lltrisc_v.Prelude.{
  ℕ, ◌+◌, ◌≤◌, ◌<◌, ◌≡◌, ◌≢◌, ◌∙◌, ◌⊎◌, refl, sym, ap, subst, arith, true, false, some, List, [],
  ◌∷◌, ◌++◌, mem, mem-append, length, ==_refl,
}
use lltrisc_v.Kernel.State.{Kernel, eok, etimeout}
use lltrisc_v.Kernel.Lists.{set_error}
use lltrisc_v.Memory.{Memory, IsBytes, within}
use lltrisc_v.Memory.Copy.{rt_memcpy, IsAhead, Copied-outside, Copied-IsBytes}
use lltrisc_v.Memory.Copy.Words.{rt_memcpy-Copied}
use lltrisc_v.Ipc.{Outcome, returns, waits, wait_in}
use lltrisc_v.Ipc.Mailbox.Queue.{woken}
use lltrisc_v.Ipc.MessageQueue.{MessageQueue, message_header, unlink_head, link_last}
use lltrisc_v.Ipc.MessageQueue.Send.{mq_send_wait}
use lltrisc_v.Ipc.MessageQueue.Receive.{received_size, mq_get, mq_recv_round, mq_recv}
use lltrisc_v.Ipc.MessageQueue.Chain.{IsQueue, bytes, messages}
use lltrisc_v.Ipc.MessageQueue.Links.{get_first, get_first-IsQueue, put_last, put_last-IsQueue}
use lltrisc_v.Ipc.MessageQueue.Sending.{bytes-Copied, messages-same, send_put, written}

-- An area of `n` bytes that touches none of the blocks.
abbrev pub IsClear : MessageQueue → (buffer n : ℕ) → List ℕ → Type 0
IsClear q buffer n l =
    (x : ℕ) → mem x l ≡ true → (buffer + n ≤ x) ⊎ (x + message_header + q.msg_size ≤ buffer)

-- What a receive gives where `b` is the first of the queue.
abbrev pub Received :
    MessageQueue
    → (b : ℕ) (rest free : List ℕ) (buffer size : ℕ) → Memory
    → Kernel
    → Outcome × MessageQueue × Memory × Kernel
    → Type 0
Received q b rest free buffer size m k (o, q', m', k') =
    (o ≡ returns eok)
    × IsQueue q' rest (b ∷ free)
    × (messages m' q.msg_size rest ≡ messages m q.msg_size rest)
    × (bytes m' buffer (received_size q size) ≡ bytes m (b + message_header) (received_size q size))
    × (k' ≡ woken q.suspend_sender_thread k)

module _ (q : MessageQueue) (b : ℕ) (rest free : List ℕ) (i : IsQueue q (b ∷ rest) free)
    (buffer size : ℕ) (m : Memory) (k : Kernel) where
  recv_get :
      (timeout : ℕ)
      → mq_recv q buffer size timeout m k ≡ (
        returns eok,
        get_first q b,
        rt_memcpy m buffer (b + message_header) (received_size q size),
        woken q.suspend_sender_thread k,
      )
  unfolding mq_recv mq_recv_round mq_get unlink_head
  recv_get timeout = ground (arith, i.used_chain.0, i.counted)

  received :
      (timeout : ℕ)
      → IsBytes m
      → IsClear q buffer (received_size q size) (b ∷ rest)
      → Received q b rest free buffer size m k (mq_recv q buffer size timeout m k)
  received timeout h clear =
      let n = received_size q size in
      let m' = rt_memcpy m buffer (b + message_header) n in
      let first = clear b (ground (arith, ==_refl b)) in
      let copied = rt_memcpy-Copied m buffer (b + message_header) n h (ground (arith, first)) in
      subst (Received q b rest free buffer size m k) (sym (recv_get timeout)) (
        refl,
        get_first-IsQueue q b rest free i,
        messages-same m m' q.msg_size rest (λ x a there low high.
            Copied-outside m m' buffer (b + message_header) n a copied
              (block_outside x a there low high (clear x (ground (arith, there))))),
        bytes-Copied m m' buffer (b + message_header) n copied,
        refl,
      )
    where
      block_outside :
          (x a : ℕ)
          → mem x rest ≡ true
          → x + message_header ≤ a
          → a < x + message_header + q.msg_size
          → (buffer + received_size q size ≤ x) ⊎ (x + message_header + q.msg_size ≤ buffer)
          → within buffer (received_size q size) a ≡ false
      block_outside x a there low high apart = ground (arith, apart, low, high)

module _ (q : MessageQueue) (used free : List ℕ) (i : IsQueue q used free) where
  -- rt_mq_recv before it may wait, by a running thread, from a queue that is well formed, into a buffer
  -- that touches none of the queue's blocks, used or free: the first message comes out, as many of its bytes as the buffer
  -- takes and a block has, the others stay in their order, its block is free again, and a waiting sender is
  -- resumed; an empty queue is a timeout at once if the call may not wait, and else the thread waits among
  -- the receivers and the queue stays as it is.
  pub mq_recv-cases :
      (buffer size timeout t : ℕ) (m : Memory) (k : Kernel)
      → IsBytes m
      → k.current_thread ≡ some t
      → IsClear q buffer (received_size q size) (used ++ free)
      → let (o, q', m', k') = mq_recv q buffer size timeout m k in
        ((b : ℕ) (rest : List ℕ)
          → used ≡ b ∷ rest
          → (o ≡ returns eok)
            × IsQueue q' rest (b ∷ free)
            × (messages m' q.msg_size rest ≡ messages m q.msg_size rest)
            × (bytes m' buffer (received_size q size)
                ≡ bytes m (b + message_header) (received_size q size))
            × (k' ≡ woken q.suspend_sender_thread k))
        × (used ≡ [] → timeout ≡ 0 → (o ≡ returns etimeout) × (q' ≡ q) × (m' ≡ m) × (k' ≡ k))
        × (used ≡ []
            → timeout ≢ 0
            → (o ≡ waits)
              × (q' ≡ q)
              × (m' ≡ m)
              × (k' ≡ wait_in q.suspend_thread t q.flag timeout (set_error t eok k)))
  unfolding mq_recv mq_recv_round
  mq_recv-cases buffer size timeout t m k h current clear = (
    (λ b rest e.
        received q b rest free (rw e at i) buffer size m k timeout h
          (λ x there. clear x (ground (arith, mem-append x used free, ap (mem x) e, there)))),
    (λ e z. ground (arith, z, no_message e)),
    (λ e n. ground (arith, n, no_message e, current)),
  )
    where
      no_message : used ≡ [] → q.entry ≡ 0
      no_message e = i.counted ∙ ap length e

-- A message sent to an empty queue that is well formed is what the next rt_mq_recv puts into its buffer,
-- byte for byte; both calls return RT_EOK, and the queue is empty again, with all its blocks free. The
-- message's buffer is apart from the block that it goes to, and the receiver's from every block of the pool.
pub mq_recv-mq_send_wait :
    (q : MessageQueue) (b : ℕ) (free : List ℕ)
    → IsQueue q [] (b ∷ free)
    → (from to size timeout again t : ℕ) (m : Memory) (k : Kernel) → IsBytes m
    → size ≤ q.msg_size
    → IsAhead (b + message_header) from size
    → IsClear q to size (b ∷ free)
    → let (o, q', m', k') = mq_send_wait q from size timeout m k in
      let (o2, q2, m2, k2) = mq_recv q' to size again m' k' in
      (o ≡ returns eok)
      × (o2 ≡ returns eok)
      × IsQueue q2 [] (b ∷ free)
      × (bytes m2 to size ≡ bytes m from size)
unfolding link_last
mq_recv-mq_send_wait q b free i from to size timeout again t m k h fits ahead clear =
    let q1 = put_last q b in
    let m1 = rt_memcpy m (b + message_header) from size in
    let whole : received_size q1 size ≡ size = ground (arith, fits) in
    let bytes_still =
      Copied-IsBytes m m1 (b + message_header) from size
        (rt_memcpy-Copied m (b + message_header) from size h ahead) h in
    let got =
      received q1 b [] free (put_last-IsQueue q b [] free i) to size m1 (woken q.suspend_thread k)
        again bytes_still (λ x there. ground (arith, clear x (ground (arith, there)), whole)) in
    subst (Back again) (sym (send_put q b [] free i from size m k timeout fits)) (
      refl,
      got.0,
      got.1,
      sym (ap (λ n. bytes (mq_recv q1 to size again m1 (woken q.suspend_thread k)).2 to n) whole)
          ∙ got.3
          ∙ ap (bytes m1 (b + message_header)) whole
          ∙ written q b [] free i from size m k h fits ahead,
    )
  where
    Back : ℕ → Outcome × MessageQueue × Memory × Kernel → Type 0
    Back again (o, q', m', k') =
        let (o2, q2, m2, k2) = mq_recv q' to size again m' k' in
        (o ≡ returns eok)
        × (o2 ≡ returns eok)
        × IsQueue q2 [] (b ∷ free)
        × (bytes m2 to size ≡ bytes m from size)
