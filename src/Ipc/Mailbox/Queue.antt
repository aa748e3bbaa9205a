-- ===== src/Ipc/Mailbox/Queue.antt =====
-- A mailbox is a bounded queue: the ring of `msg_pool` holds the messages in the order of sending.
use lltrisc_v.Prelude.{
  ℕ, zero, suc, ◌+◌, ◌-◌, ◌^◌, ◌≤◌, ◌<◌, ◌≡◌, ◌≢◌, refl, true, not, List, [], ◌∷◌, ◌++◌, some, none,
  arith, if◌then◌else◌, is_empty, ltb, update,
}
use native.Mathlib.Numerals.{add-one}
use lltrisc_v.Kernel.State.{Kernel, eok, etimeout, efull}
use lltrisc_v.Kernel.Lists.{set_error}
use lltrisc_v.Scheduler.{schedule}
use lltrisc_v.Ipc.{returns, waits, ipc_list_resume, wait_in}
use lltrisc_v.Ipc.Mailbox.{
  Mailbox, mb_entry_max, next_offset, mb_put, mb_get, mb_send_round, mb_send_wait, mb_recv_round,
  mb_recv,
}

-- `n` words of the ring, from offset `i` on.
abbrev pub read : (ℕ → ℕ) → (size i n : ℕ) → List ℕ
read pool size i zero = []
read pool size i (suc n) = pool i ∷ read pool size (next_offset size i) n

-- The messages in the mailbox, the oldest first.
abbrev pub contents : Mailbox → List ℕ
contents m = read m.msg_pool m.size m.out_offset m.entry

-- Offset `n` places after `i`.
abbrev pub offset_after : (size i n : ℕ) → ℕ
offset_after size i n = if ltb (i + n) size then i + n else i + n - size

pub record IsRing (m : Mailbox) : Type 0 where
  pub size_fits : m.size ≤ mb_entry_max
  pub out_fits : m.out_offset < m.size
  pub entry_fits : m.entry ≤ m.size
  pub in_place : m.in_offset ≡ offset_after m.size m.out_offset m.entry

read-update :
    (pool : ℕ → ℕ) (size i n j v : ℕ)
    → i < size
    → size < 2 ^ 16
    → n < size
    → j ≡ offset_after size i n
    → read (update pool j v) size i n ≡ read pool size i n
read-update pool size i zero j v h w l e = refl
read-update pool size i (suc n) j v h w l e =
    ground (arith, read-update pool size (next_offset size i) n j v)

-- One more word, written behind the last, is the end of the list.
read-snoc :
    (pool : ℕ → ℕ) (size i n j v : ℕ)
    → i < size
    → size < 2 ^ 16
    → n < size
    → j ≡ offset_after size i n
    → read (update pool j v) size i (suc n) ≡ read pool size i n ++ v ∷ []
read-snoc pool size i zero j v h w l e = ground arith
read-snoc pool size i (suc n) j v h w l e =
    ground (arith, read-snoc pool size (next_offset size i) n j v)

pred-suc : (n : ℕ) → suc n - 1 ≡ n
pred-suc n = omega arith

-- The receivers or senders that wait in a list: the first is resumed, if there is one.
abbrev pub woken : ℕ → Kernel → Kernel
woken o k = if not (is_empty (k.suspend_list o)) then schedule (ipc_list_resume o k) else k

module _ (m : Mailbox) (r : IsRing m) where
  put-contents :
      (value : ℕ) (k : Kernel)
      → m.entry < m.size
      → contents (mb_put m value k).1 ≡ contents m ++ value ∷ []
  unfolding mb_put
  put-contents value k room =
      let e : ltb m.entry mb_entry_max ≡ true = ground (arith, r.size_fits, room) in
      rw (e, add-one m.entry)
        (read-snoc m.msg_pool m.size m.out_offset m.entry m.in_offset value r.out_fits
          (ground (arith, r.size_fits)) room r.in_place)

  put-IsRing : (value : ℕ) (k : Kernel) → m.entry < m.size → IsRing (mb_put m value k).1
  unfolding mb_put
  put-IsRing value k room = ground (arith, r.size_fits, r.out_fits, r.entry_fits, r.in_place)

  put-eok : (value : ℕ) (k : Kernel) → m.entry < m.size → (mb_put m value k).0 ≡ returns eok
  unfolding mb_put
  put-eok value k room = ground (arith, r.size_fits)

  put-woken :
      (value : ℕ) (k : Kernel) → m.entry < m.size → (mb_put m value k).2 ≡ woken m.suspend_thread k
  unfolding mb_put
  put-woken value k room =
      let e : ltb m.entry mb_entry_max ≡ true = ground (arith, r.size_fits, room) in rw e refl

  -- `rt_mb_send_wait` before it may wait, by a running thread, to a mailbox that is a ring: with
  -- room the message is the last of the queue and a waiting receiver is resumed; a full mailbox is
  -- an error at once if the call may not wait, and else the current thread waits among the senders
  -- and the mailbox stays as it is.
  pub mb_send_wait-cases :
      (value timeout t : ℕ) (k : Kernel)
      → k.current_thread ≡ some t
      → let (o, m', k') = mb_send_wait m value timeout k in
        (m.entry < m.size
          → (o ≡ returns eok)
            × (contents m' ≡ contents m ++ value ∷ [])
            × IsRing m'
            × (k' ≡ woken m.suspend_thread k))
        × (m.entry ≡ m.size → timeout ≡ 0 → (o ≡ returns efull) × (m' ≡ m) × (k' ≡ k))
        × (m.entry ≡ m.size
            → timeout ≢ 0
            → (o ≡ waits)
              × (m' ≡ m)
              × (k' ≡ wait_in m.suspend_sender_thread t m.flag timeout (set_error t eok k)))
  unfolding mb_send_wait mb_send_round
  mb_send_wait-cases value timeout t k current = (
    λ room.
        let e : mb_send_wait m value timeout k ≡ mb_put m value k = ground (arith, room) in
        rw e (
          put-eok value k room,
          put-contents value k room,
          put-IsRing value k room,
          put-woken value k room,
        ),
    λ full z. ground arith,
    λ full n. ground (arith, current),
  )

read-head :
    (pool : ℕ → ℕ) (size i n : ℕ)
    → 0 < n
    → read pool size i n ≡ pool i ∷ read pool size (next_offset size i) (n - 1)
read-head pool size i zero h = ground (arith, h)
read-head pool size i (suc n) h = rw (pred-suc n) refl

module _ (m : Mailbox) (r : IsRing m) where
  get-contents :
      (k : Kernel)
      → 0 < m.entry
      → let (o, v, m', k') = mb_get m k in (x : ℕ) × (v ≡ some x) × (contents m ≡ x ∷ contents m')
  unfolding mb_get
  get-contents k some_there =
      let e : ltb 0 m.entry ≡ true = ground (arith, some_there) in
      rw e
        (m.msg_pool m.out_offset, refl, read-head m.msg_pool m.size m.out_offset m.entry some_there)

  get-eok : (k : Kernel) → (mb_get m k).0 ≡ returns eok
  unfolding mb_get
  get-eok k = refl

  get-woken : (k : Kernel) → (mb_get m k).3 ≡ woken m.suspend_sender_thread k
  unfolding mb_get
  get-woken k = refl

  get-IsRing : (k : Kernel) → 0 < m.entry → IsRing (mb_get m k).2
  unfolding mb_get
  get-IsRing k some_there = ground (arith, r.size_fits, r.out_fits, r.entry_fits, r.in_place)

  -- `rt_mb_recv` before it may wait, by a running thread, from a mailbox that is a ring: with
  -- messages it gives the oldest one, keeps the others in order and resumes a waiting sender; an
  -- empty mailbox is a timeout at once if the call may not wait, and else the current thread waits
  -- among the receivers and the mailbox stays as it is.
  pub mb_recv-cases :
      (timeout t : ℕ) (k : Kernel)
      → k.current_thread ≡ some t
      → let (o, v, m', k') = mb_recv m timeout k in
        (0 < m.entry
          → (o ≡ returns eok)
            × ((x : ℕ) × (v ≡ some x) × (contents m ≡ x ∷ contents m'))
            × IsRing m'
            × (k' ≡ woken m.suspend_sender_thread k))
        × (m.entry ≡ 0 → timeout ≡ 0 → (o ≡ returns etimeout) × (v ≡ none) × (m' ≡ m) × (k' ≡ k))
        × (m.entry ≡ 0
            → timeout ≢ 0
            → (o ≡ waits)
              × (v ≡ none)
              × (m' ≡ m)
              × (k' ≡ wait_in m.suspend_thread t m.flag timeout (set_error t eok k)))
  unfolding mb_recv mb_recv_round
  mb_recv-cases timeout t k current = (
    λ there.
        let e : mb_recv m timeout k ≡ mb_get m k = ground (arith, there) in
        rw e (get-eok k, get-contents k there, get-IsRing k there, get-woken k),
    λ none_there z. ground arith,
    λ none_there n. ground (arith, current),
  )
