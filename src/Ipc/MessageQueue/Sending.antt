-- ===== src/Ipc/MessageQueue/Sending.antt =====
-- A message queue is a bounded queue: what a send adds to it.
use lltrisc_v.Prelude.{
  ℕ, ◌+◌, ◌-◌, ◌≤◌, ◌<◌, ◌≡◌, ◌≢◌, ◌∙◌, refl, sym, ap, subst, arith, true, false, ◌&&◌, none, some,
  List, [], ◌∷◌, ◌++◌, if◌then◌else◌, mem, mem-append, length-append, ltb, leb, ==_refl,
}
use lltrisc_v.Kernel.State.{Kernel, eok, error, efull}
use lltrisc_v.Kernel.Lists.{set_error}
use lltrisc_v.Memory.{Memory, IsBytes, within}
use lltrisc_v.Memory.Copy.{rt_memcpy, Copied, IsAhead, Copied-outside}
use lltrisc_v.Memory.Copy.Words.{rt_memcpy-Copied}
use lltrisc_v.Ipc.{Outcome, returns, waits, wait_in}
use lltrisc_v.Ipc.Mailbox.Queue.{woken}
use lltrisc_v.Ipc.MessageQueue.{MessageQueue, mq_entry_max, message_header, link_last, link_first}
use lltrisc_v.Ipc.MessageQueue.Send.{count_sent, mq_put, mq_send_round, mq_send_wait, mq_urgent}
use lltrisc_v.Ipc.MessageQueue.Chain.{IsQueue, bytes, bytes-same, messages, length-middle}
use lltrisc_v.Ipc.MessageQueue.Links.{
  put_first, put_last, put_first-IsQueue, put_last-IsQueue, not_used,
}

-- The target of a copy reads as its source did.
pub bytes-Copied :
    (m m' : Memory) (dst src n : ℕ) → Copied m dst src n m' → bytes m' dst n ≡ bytes m src n
bytes-Copied m m' dst src n f = bytes-same m m' dst src n (λ i h. f (dst + i) ∙ inside i h)
  where
    inside :
        (i : ℕ)
        → i < n
        → (if leb dst (dst + i) && ltb (dst + i) (dst + n)
            then m (src + (dst + i - dst))
            else m (dst + i))
          ≡ m (src + i)
    inside i h =
        let place : src + (dst + i - dst) ≡ src + i = omega arith in ground (arith, ap m place, h)

-- A write outside of the blocks leaves their messages.
pub messages-same :
    (m m' : Memory) (size : ℕ) (l : List ℕ)
    → ((x a : ℕ)
        → mem x l ≡ true
        → x + message_header ≤ a
        → a < x + message_header + size
        → m' a ≡ m a)
    → messages m' size l ≡ messages m size l
messages-same m m' size [] f = refl
messages-same m m' size (x ∷ xs) f =
    let first =
      bytes-same m m' (x + message_header) (x + message_header) size
        (λ i h. f x (x + message_header + i) (ground arith) (omega arith) (omega (arith, h))) in
    let rest = messages-same m m' size xs (λ y a h. f y a (ground (arith, h))) in
    ground (arith, first, rest)

messages-snoc :
    (m : Memory) (size b : ℕ) (l : List ℕ)
    → messages m size (l ++ b ∷ []) ≡ messages m size l ++ bytes m (b + message_header) size ∷ []
messages-snoc m size b [] = refl
messages-snoc m size b (x ∷ xs) =
    ap (λ r. bytes m (x + message_header) size ∷ r) (messages-snoc m size b xs)

module _ (q : MessageQueue) (b : ℕ) (used free : List ℕ) (i : IsQueue q used (b ∷ free))
    (buffer size : ℕ) (m : Memory) (k : Kernel) where
  not_full : ltb q.entry mq_entry_max ≡ true
  not_full =
      ground (arith, i.counted, i.room, i.fits, length-middle b used free, length-append used free)

  pub send_put :
      (timeout : ℕ)
      → size ≤ q.msg_size
      → mq_send_wait q buffer size timeout m k ≡ (
        returns eok,
        put_last q b,
        rt_memcpy m (b + message_header) buffer size,
        woken q.suspend_thread k,
      )
  unfolding mq_send_wait mq_send_round mq_put count_sent link_last
  send_put timeout fits = ground (arith, fits, i.free_chain.0, not_full)

  urgent_put :
      size ≤ q.msg_size
      → mq_urgent q buffer size m k ≡ (
        returns eok,
        put_first q b,
        rt_memcpy m (b + message_header) buffer size,
        woken q.suspend_thread k,
      )
  unfolding mq_urgent count_sent link_first
  urgent_put fits = ground (arith, fits, i.free_chain.0, not_full)

  -- No byte of a block in the queue is one of the free block's.
  block_outside :
      (x a : ℕ)
      → size ≤ q.msg_size
      → mem x used ≡ true
      → x + message_header ≤ a
      → a < x + message_header + q.msg_size
      → within (b + message_header) size a ≡ false
  block_outside x a fits there low high =
      let other : x ≢ b =
        λ e. ground (arith, ap (λ y. mem y used) e, there, not_used q b used free i) in
      let in_all : mem x (used ++ b ∷ free) ≡ true =
        ground (arith, mem-append x used (b ∷ free), there) in
      let free_in_all : mem b (used ++ b ∷ free) ≡ true =
        ground (arith, mem-append b used (b ∷ free), ==_refl b) in
      let apart = i.spaced x b in_all free_in_all other in ground (arith, apart, fits, low, high)

  -- The messages that are in the queue stay.
  others_kept :
      IsBytes m
      → size ≤ q.msg_size
      → IsAhead (b + message_header) buffer size
      → messages (rt_memcpy m (b + message_header) buffer size) q.msg_size used
        ≡ messages m q.msg_size used
  others_kept h fits ahead =
      messages-same m (rt_memcpy m (b + message_header) buffer size) q.msg_size used
        (λ x a there low high.
          Copied-outside m (rt_memcpy m (b + message_header) buffer size) (b + message_header)
            buffer size a (rt_memcpy-Copied m (b + message_header) buffer size h ahead)
            (block_outside x a fits there low high))

-- What rt_mq_urgent gives where `b` is free.
abbrev FirstSent :
    MessageQueue
    → (b : ℕ) (used free : List ℕ) (buffer size : ℕ) → Memory
    → Kernel
    → Outcome × MessageQueue × Memory × Kernel
    → Type 0
FirstSent q b used free buffer size m k (o, q', m', k') =
    (o ≡ returns eok)
    × IsQueue q' (b ∷ used) free
    × (messages m' q.msg_size (b ∷ used)
        ≡ bytes m' (b + message_header) q.msg_size ∷ messages m q.msg_size used)
    × (bytes m' (b + message_header) size ≡ bytes m buffer size)
    × (k' ≡ woken q.suspend_thread k)

module _ (q : MessageQueue) (b : ℕ) (used free : List ℕ) (i : IsQueue q used (b ∷ free))
    (buffer size : ℕ) (m : Memory) (k : Kernel) (h : IsBytes m) (fits : size ≤ q.msg_size)
    (ahead : IsAhead (b + message_header) buffer size) where
  pub written :
      bytes (rt_memcpy m (b + message_header) buffer size) (b + message_header) size
      ≡ bytes m buffer size
  written =
      bytes-Copied m (rt_memcpy m (b + message_header) buffer size) (b + message_header) buffer size
        (rt_memcpy-Copied m (b + message_header) buffer size h ahead)

  kept :
      messages (rt_memcpy m (b + message_header) buffer size) q.msg_size used
      ≡ messages m q.msg_size used
  kept = others_kept q b used free i buffer size m k h fits ahead

  sent :
      (timeout : ℕ)
      → let (o, q', m', k') = mq_send_wait q buffer size timeout m k in
        (o ≡ returns eok)
        × IsQueue q' (used ++ b ∷ []) free
        × (messages m' q.msg_size (used ++ b ∷ [])
            ≡ messages m q.msg_size used ++ bytes m' (b + message_header) q.msg_size ∷ [])
        × (bytes m' (b + message_header) size ≡ bytes m buffer size)
        × (k' ≡ woken q.suspend_thread k)
  sent timeout =
      let m' = rt_memcpy m (b + message_header) buffer size in
      rw (send_put q b used free i buffer size m k timeout fits) (
        refl,
        put_last-IsQueue q b used free i,
        messages-snoc m' q.msg_size b used
            ∙ ap (λ l. l ++ bytes m' (b + message_header) q.msg_size ∷ []) kept,
        written,
        refl,
      )

  sent_first : FirstSent q b used free buffer size m k (mq_urgent q buffer size m k)
  sent_first =
      let m' = rt_memcpy m (b + message_header) buffer size in
      subst (FirstSent q b used free buffer size m k)
        (sym (urgent_put q b used free i buffer size m k fits))
        (
          refl,
          put_first-IsQueue q b used free i,
          ap (λ l. bytes m' (b + message_header) q.msg_size ∷ l) kept,
          written,
          refl,
        )

-- A queue of which no block is free.
no_block :
    (q : MessageQueue) (used free : List ℕ)
    → IsQueue q used free
    → free ≡ []
    → q.msg_queue_free ≡ none
no_block q used [] i e = i.free_chain
no_block q used (b ∷ free) i e = ground (arith, e)

module _ (q : MessageQueue) (used free : List ℕ) (i : IsQueue q used free) where
  -- rt_mq_send_wait before it may wait, by a running thread, to a queue that is well formed: a message that
  -- is longer than a block is an error and changes nothing; with a free block, and the buffer not reaching
  -- into it from behind, the queue has one more message, the last one, which begins with the bytes of the
  -- buffer, the messages before it stay, and a waiting receiver is resumed; with no free block the call
  -- returns -RT_EFULL if it may not wait, and else the thread waits among the senders.
  pub mq_send_wait-cases :
      (buffer size timeout t : ℕ) (m : Memory) (k : Kernel)
      → IsBytes m
      → k.current_thread ≡ some t
      → let (o, q', m', k') = mq_send_wait q buffer size timeout m k in
        (q.msg_size < size → (o ≡ returns error) × (q' ≡ q) × (m' ≡ m) × (k' ≡ k))
        × ((b : ℕ) (rest : List ℕ)
            → size ≤ q.msg_size
            → free ≡ b ∷ rest
            → IsAhead (b + message_header) buffer size
            → (o ≡ returns eok)
              × IsQueue q' (used ++ b ∷ []) rest
              × (messages m' q.msg_size (used ++ b ∷ [])
                  ≡ messages m q.msg_size used ++ bytes m' (b + message_header) q.msg_size ∷ [])
              × (bytes m' (b + message_header) size ≡ bytes m buffer size)
              × (k' ≡ woken q.suspend_thread k))
        × (size ≤ q.msg_size
            → free ≡ []
            → timeout ≡ 0
            → (o ≡ returns efull) × (q' ≡ q) × (m' ≡ m) × (k' ≡ k))
        × (size ≤ q.msg_size
            → free ≡ []
            → timeout ≢ 0
            → (o ≡ waits)
              × (q' ≡ q)
              × (m' ≡ m)
              × (k' ≡ wait_in q.suspend_sender_thread t q.flag timeout (set_error t eok k)))
  unfolding mq_send_wait mq_send_round
  mq_send_wait-cases buffer size timeout t m k h current = (
    (λ long. ground (arith, long)),
    (λ b rest fits e ahead. sent q b used rest (rw e at i) buffer size m k h fits ahead timeout),
    (λ fits e z. ground (arith, fits, z, no_block q used free i e)),
    (λ fits e n. ground (arith, fits, n, no_block q used free i e, current)),
  )

  -- rt_mq_urgent, to a queue that is well formed: a message that is longer than a block is an error and
  -- changes nothing; with a free block, and the buffer not reaching into it from behind, the queue has one
  -- more message, the first one, which begins with the bytes of the buffer, the others follow it, and a
  -- waiting receiver is resumed; with no free block the call returns -RT_EFULL and changes nothing.
  pub mq_urgent-cases :
      (buffer size : ℕ) (m : Memory) (k : Kernel)
      → IsBytes m
      → let (o, q', m', k') = mq_urgent q buffer size m k in
        (q.msg_size < size → (o ≡ returns error) × (q' ≡ q) × (m' ≡ m) × (k' ≡ k))
        × ((b : ℕ) (rest : List ℕ)
            → size ≤ q.msg_size
            → free ≡ b ∷ rest
            → IsAhead (b + message_header) buffer size
            → (o ≡ returns eok)
              × IsQueue q' (b ∷ used) rest
              × (messages m' q.msg_size (b ∷ used)
                  ≡ bytes m' (b + message_header) q.msg_size ∷ messages m q.msg_size used)
              × (bytes m' (b + message_header) size ≡ bytes m buffer size)
              × (k' ≡ woken q.suspend_thread k))
        × (size ≤ q.msg_size → free ≡ [] → (o ≡ returns efull) × (q' ≡ q) × (m' ≡ m) × (k' ≡ k))
  unfolding mq_urgent
  mq_urgent-cases buffer size m k h = (
    (λ long. ground (arith, long)),
    (λ b rest fits e ahead. sent_first q b used rest (rw e at i) buffer size m k h fits ahead),
    (λ fits e. ground (arith, fits, no_block q used free i e)),
  )
