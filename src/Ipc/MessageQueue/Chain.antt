-- ===== src/Ipc/MessageQueue/Chain.antt =====
-- Lists of blocks that are linked by their `next` words, and when a message queue is well formed.
use lltrisc_v.Prelude.{
  ℕ, zero, suc, ◌+◌, ◌≤◌, ◌<◌, ◌≡◌, ◌≢◌, ◌∙◌, ◌⊎◌, inl, inr, refl, sym, ap, arith, true, false,
  Option, none, some, List, [], ◌∷◌, ◌++◌, ◌==◌, update, mem, nodup, mem-append, length,
  length-append, ==→eq, Bool-cases,
}
use lltrisc_v.Memory.{Memory}
use lltrisc_v.Ipc.MessageQueue.{MessageQueue, mq_entry_max, message_header}

-- The blocks that a pointer leads to.
abbrev pub IsChain : (ℕ → Option ℕ) → Option ℕ → List ℕ → Type 0
IsChain next p [] = p ≡ none
IsChain next p (b ∷ bs) = (p ≡ some b) × IsChain next (next b) bs

abbrev pub last : List ℕ → Option ℕ
last [] = none
last (b ∷ []) = some b
last (b ∷ c ∷ bs) = last (c ∷ bs)

pub mem-last : (t : ℕ) (l : List ℕ) → last l ≡ some t → mem t l ≡ true
mem-last t [] e = ground (arith, e)
mem-last t (b ∷ []) e = ground (arith, e)
mem-last t (b ∷ c ∷ bs) e = ground (arith, mem-last t (c ∷ bs) e)

-- A block outside of a chain may be linked anew.
pub IsChain-update :
    (next : ℕ → Option ℕ) (p : Option ℕ) (l : List ℕ) (a : ℕ) (v : Option ℕ)
    → mem a l ≡ false
    → IsChain next p l
    → IsChain (update next a v) p l
IsChain-update next p [] a v h c = c
IsChain-update next p (b ∷ bs) a v h (e, c) =
    let test : (a == b) ≡ false = ground (arith, h) in
    (e, rw test (IsChain-update next (next b) bs a v (ground (arith, h)) c))

-- Behind the last block comes one more.
pub IsChain-snoc :
    (next : ℕ → Option ℕ) (p : Option ℕ) (l : List ℕ) (t b : ℕ)
    → IsChain next p l
    → last l ≡ some t
    → nodup l ≡ true
    → mem b l ≡ false
    → next b ≡ none
    → IsChain (update next t (some b)) p (l ++ b ∷ [])
IsChain-snoc next p [] t b c e d h n = ground (arith, e)
IsChain-snoc next p (x ∷ []) t b (e, c) l d h n =
    let end : (t == b) ≡ false = ground (arith, l, h) in
    let here : (t == x) ≡ true = ground (arith, l) in (e, rw here (refl, rw end n))
IsChain-snoc next p (x ∷ y ∷ ys) t b (e, c) l d h n =
    let off : (t == x) ≡ false = ground (arith, mem-last t (y ∷ ys) l, d) in
    (
      e,
      rw off
          (IsChain-snoc next (next x) (y ∷ ys) t b c l (ground (arith, d)) (ground (arith, h)) n),
    )

-- `n` bytes from an address on.
abbrev pub bytes : Memory → (start n : ℕ) → List ℕ
bytes m start zero = []
bytes m start (suc n) = m start ∷ bytes m (start + 1) n

pub bytes-same :
    (m m' : Memory) (a b n : ℕ)
    → ((i : ℕ) → i < n → m' (a + i) ≡ m (b + i))
    → bytes m' a n ≡ bytes m b n
bytes-same m m' a b zero f = refl
bytes-same m m' a b (suc n) f =
    let head : m' a ≡ m b = ap m' (start a) ∙ f 0 (omega arith) ∙ ap m (sym (start b)) in
    let rest =
      bytes-same m m' (a + 1) (b + 1) n
        (λ i h. ap m' (next a i) ∙ f (suc i) (omega (arith, h)) ∙ ap m (sym (next b i))) in
    ground (arith, head, rest)
  where
    start : (a : ℕ) → a ≡ a + 0
    start a = omega arith

    next : (a i : ℕ) → a + 1 + i ≡ a + suc i
    next a i = omega arith

-- The messages in the blocks, in their order.
abbrev pub messages : Memory → (size : ℕ) → List ℕ → List (List ℕ)
messages m size [] = []
messages m size (b ∷ bs) = bytes m (b + message_header) size ∷ messages m size bs

-- No two of the blocks overlap.
abbrev pub IsSpaced : (size : ℕ) → List ℕ → Type 0
IsSpaced size l =
    (a b : ℕ)
    → mem a l ≡ true
    → mem b l ≡ true
    → a ≢ b
    → (a + message_header + size ≤ b) ⊎ (b + message_header + size ≤ a)

-- The queue holds its messages in the blocks `used`, the oldest first, and has the blocks `free` left.
pub record IsQueue (q : MessageQueue) (used free : List ℕ) : Type 0 where
  pub used_chain : IsChain q.next q.msg_queue_head used
  pub free_chain : IsChain q.next q.msg_queue_free free
  pub tail : q.msg_queue_tail ≡ last used
  pub once : nodup (used ++ free) ≡ true
  pub counted : q.entry ≡ length used
  pub room : length (used ++ free) ≡ q.max_msgs
  pub fits : q.max_msgs ≤ mq_entry_max
  pub spaced : IsSpaced q.msg_size (used ++ free)

pub mem-middle : (a b : ℕ) (xs ys : List ℕ) → mem a (xs ++ b ∷ ys) ≡ mem a (b ∷ xs ++ ys)
mem-middle a b xs ys = ground (arith, mem-append a xs (b ∷ ys), mem-append a xs ys)

pub nodup-middle : (b : ℕ) (xs ys : List ℕ) → nodup (xs ++ b ∷ ys) ≡ nodup (b ∷ xs ++ ys)
nodup-middle b [] ys = refl
nodup-middle b (x ∷ xs) ys = ground (arith, nodup-middle b xs ys, mem-middle x b xs ys)

pub length-middle : (b : ℕ) (xs ys : List ℕ) → length (xs ++ b ∷ ys) ≡ length (b ∷ xs ++ ys)
length-middle b xs ys = omega (arith, length-append xs (b ∷ ys), length-append xs ys)

pub snoc_append : (b : ℕ) (xs ys : List ℕ) → (xs ++ b ∷ []) ++ ys ≡ xs ++ b ∷ ys
snoc_append b [] ys = refl
snoc_append b (x ∷ xs) ys = ap (λ l. x ∷ l) (snoc_append b xs ys)

pub IsSpaced-same :
    (size : ℕ) (l l' : List ℕ) → ((a : ℕ) → mem a l' ≡ mem a l) → IsSpaced size l → IsSpaced size l'
IsSpaced-same size l l' e s a b h k = s a b (sym (e a) ∙ h) (sym (e b) ∙ k)

pub last-snoc : (b : ℕ) (l : List ℕ) → last (l ++ b ∷ []) ≡ some b
last-snoc b [] = refl
last-snoc b (x ∷ []) = refl
last-snoc b (x ∷ y ∷ ys) = last-snoc b (y ∷ ys)

pub nodup-left : (xs ys : List ℕ) → nodup (xs ++ ys) ≡ true → nodup xs ≡ true
nodup-left [] ys h = refl
nodup-left (x ∷ xs) ys h = ground (arith, nodup-left xs ys, mem-append x xs ys, h)

-- The two parts of a list without repetitions have nothing in common.
pub nodup-apart :
    (a : ℕ) (xs ys : List ℕ) → nodup (xs ++ ys) ≡ true → mem a xs ≡ true → mem a ys ≡ false
nodup-apart a [] ys h k = ground (arith, k)
nodup-apart a (x ∷ xs) ys h k = elim (Bool-cases (x == a)) [
  | inl e ↦ let here = ==→eq x a e in ground (arith, mem-append x xs ys, h, ap (λ y. mem y ys) here)
  | inr e ↦ nodup-apart a xs ys (ground (arith, h)) (ground (arith, k, e))
]
