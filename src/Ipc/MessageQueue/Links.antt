-- ===== src/Ipc/MessageQueue/Links.antt =====
-- How a block goes from the free ones into a queue, at either end, and back.
use lltrisc_v.Prelude.{
  ℕ, ◌+◌, ◌-◌, ◌≡◌, ◌∙◌, refl, sym, ap, arith, true, false, Option, none, some, List, [], ◌∷◌, ◌++◌,
  ◌==◌, if◌then◌else◌, update, mem, nodup, mem-append, length, length-append, ltb, ==_refl,
}
use lltrisc_v.Ipc.MessageQueue.{
  MessageQueue, take_free, give_free, link_last, link_first, unlink_head,
}
use lltrisc_v.Ipc.MessageQueue.Chain.{
  IsChain, last, mem-last, IsChain-update, IsChain-snoc, IsSpaced-same, IsQueue, mem-middle,
  nodup-middle, length-middle, snoc_append, last-snoc, nodup-left, nodup-apart,
}

-- A free block made the last of the queue, and counted.
abbrev pub put_last : MessageQueue → ℕ → MessageQueue
put_last q b =
    let taken = take_free q b in
    record (link_last (record taken { next = update taken.next b none }) b) { entry = q.entry + 1 }

-- A free block made the first of the queue, and counted.
abbrev pub put_first : MessageQueue → ℕ → MessageQueue
put_first q b = record (link_first (take_free q b) b) { entry = q.entry + 1 }

-- The first block of the queue taken out and freed.
abbrev pub get_first : MessageQueue → ℕ → MessageQueue
get_first q b =
    give_free (record (unlink_head q b) { entry = if ltb 0 q.entry then q.entry - 1 else q.entry })
      b

-- `if (tail == RT_NULL) tail = msg` beside a queue of which `tail` is the last block.
tail_or : ℕ → Option ℕ → Option ℕ
tail_or b tail = elim tail [ none ↦ some b | some t ↦ some t ]

tail_kept : (b x : ℕ) (xs : List ℕ) → tail_or b (last (x ∷ xs)) ≡ last (x ∷ xs)
unfolding tail_or
tail_kept b x [] = refl
tail_kept b x (y ∷ ys) = tail_kept b y ys

tail_or-last : (b : ℕ) (used : List ℕ) → tail_or b (last used) ≡ last (b ∷ used)
unfolding tail_or
tail_or-last b [] = refl
tail_or-last b (x ∷ xs) = tail_kept b x xs

last_some : (x : ℕ) (xs : List ℕ) → (t : ℕ) × (last (x ∷ xs) ≡ some t)
last_some x [] = (x, refl)
last_some x (y ∷ ys) = last_some y ys

-- `if (tail != RT_NULL) tail->next = msg`
link_behind : (ℕ → Option ℕ) → Option ℕ → ℕ → ℕ → Option ℕ
link_behind next tail b = elim tail [ none ↦ next | some t ↦ update next t (some b) ]

same-IsChain :
    {next next' : ℕ → Option ℕ} {p p' : Option ℕ} (l : List ℕ)
    → next ≡ next'
    → p ≡ p'
    → IsChain next p l
    → IsChain next' p' l
same-IsChain l e f c = rw (← e) (rw (← f) c)

link_behind-snoc :
    (next : ℕ → Option ℕ) (head tail : Option ℕ) (used : List ℕ) (b : ℕ)
    → IsChain next head used
    → tail ≡ last used
    → nodup used ≡ true
    → mem b used ≡ false
    → next b ≡ none
    → IsChain (link_behind next tail b) (tail_or b head) (used ++ b ∷ [])
unfolding link_behind tail_or
link_behind-snoc next head tail [] b c e d h n = rw c (rw e (refl, n))
link_behind-snoc next head tail (x ∷ xs) b (first, c) e d h n =
    let (t, l) = last_some x xs in
    let linked : update next t (some b) ≡ link_behind next tail b =
      sym (ap (λ o. link_behind next o b) (e ∙ l)) in
    let start : some x ≡ tail_or b head = sym (ap (tail_or b) first) in
    same-IsChain (x ∷ xs ++ b ∷ []) linked start
      (IsChain-snoc next (some x) (x ∷ xs) t b (refl, c) l d h n)

link_behind-kept :
    (next : ℕ → Option ℕ) (p tail : Option ℕ) (used free : List ℕ) (b : ℕ)
    → IsChain next p free
    → tail ≡ last used
    → ((t : ℕ) → mem t used ≡ true → mem t free ≡ false)
    → IsChain (link_behind next tail b) p free
unfolding link_behind
link_behind-kept next p tail [] free b c e off = rw e c
link_behind-kept next p tail (x ∷ xs) free b c e off =
    let (t, l) = last_some x xs in
    rw (e ∙ l) (IsChain-update next p free t (some b) (off t (mem-last t (x ∷ xs) l)) c)

module _ (q : MessageQueue) (b : ℕ) (used free : List ℕ) (i : IsQueue q used (b ∷ free)) where
  pub not_used : mem b used ≡ false
  not_used = ground (arith, nodup-middle b used free, i.once, mem-append b used free)

  not_free : mem b free ≡ false
  not_free = ground (arith, nodup-middle b used free, i.once, mem-append b used free)

  pub put_first-IsQueue : IsQueue (put_first q b) (b ∷ used) free
  unfolding link_first tail_or
  put_first-IsQueue = record {
    used_chain = (
      refl,
      (rw (==_refl b)
          (IsChain-update q.next q.msg_queue_head used b q.msg_queue_head not_used i.used_chain)),
    );
    free_chain = IsChain-update q.next (q.next b) free b q.msg_queue_head not_free i.free_chain.1;
    tail = ap (tail_or b) i.tail ∙ tail_or-last b used;
    once = sym (nodup-middle b used free) ∙ i.once;
    counted = omega (arith, i.counted);
    room = sym (length-middle b used free) ∙ i.room;
    fits = i.fits;
    spaced =
        IsSpaced-same q.msg_size (used ++ b ∷ free) (b ∷ used ++ free)
          (λ a. sym (mem-middle a b used free)) i.spaced;
  }

  pub put_last-IsQueue : IsQueue (put_last q b) (used ++ b ∷ []) free
  unfolding link_last link_behind tail_or
  put_last-IsQueue = record {
    used_chain =
        link_behind-snoc (update q.next b none) q.msg_queue_head q.msg_queue_tail used b
          (IsChain-update q.next q.msg_queue_head used b none not_used i.used_chain) i.tail
          (nodup-left used (b ∷ free) i.once) not_used (ground arith);
    free_chain =
        link_behind-kept (update q.next b none) (q.next b) q.msg_queue_tail used free b
          (IsChain-update q.next (q.next b) free b none not_free i.free_chain.1) i.tail
          (λ t h. ground (arith, nodup-apart t used (b ∷ free) i.once h));
    tail = sym (last-snoc b used);
    once = ap nodup (snoc_append b used free) ∙ i.once;
    counted = omega (arith, i.counted, length-append used (b ∷ []));
    room = ap length (snoc_append b used free) ∙ i.room;
    fits = i.fits;
    spaced =
        IsSpaced-same q.msg_size (used ++ b ∷ free) ((used ++ b ∷ []) ++ free)
          (λ a. ap (mem a) (snoc_append b used free)) i.spaced;
  }

-- `if (tail == msg) tail = RT_NULL`
tail_without : ℕ → Option ℕ → Option ℕ
tail_without b tail = elim tail [ none ↦ none | some t ↦ if t == b then none else some t ]

tail_without-absent : (b : ℕ) (l : List ℕ) → mem b l ≡ false → tail_without b (last l) ≡ last l
unfolding tail_without
tail_without-absent b [] h = refl
tail_without-absent b (x ∷ []) h = ground (arith, h)
tail_without-absent b (x ∷ y ∷ ys) h = tail_without-absent b (y ∷ ys) (ground (arith, h))

tail_without-last :
    (b : ℕ) (used : List ℕ) → mem b used ≡ false → tail_without b (last (b ∷ used)) ≡ last used
unfolding tail_without
tail_without-last b [] h = ground arith
tail_without-last b (x ∷ xs) h = tail_without-absent b (x ∷ xs) h

module _ (q : MessageQueue) (b : ℕ) (used free : List ℕ) (i : IsQueue q (b ∷ used) free) where
  used_once : mem b used ≡ false
  used_once = ground (arith, i.once, mem-append b used free)

  not_free_yet : mem b free ≡ false
  not_free_yet = ground (arith, i.once, mem-append b used free)

  pub get_first-IsQueue : IsQueue (get_first q b) used (b ∷ free)
  unfolding unlink_head tail_without
  get_first-IsQueue = record {
    used_chain = IsChain-update q.next (q.next b) used b q.msg_queue_free used_once i.used_chain.1;
    free_chain = (
      refl,
      (rw (==_refl b) (
          IsChain-update q.next q.msg_queue_free free b q.msg_queue_free not_free_yet
            i.free_chain)),
    );
    tail = ap (tail_without b) i.tail ∙ tail_without-last b used used_once;
    once = nodup-middle b used free ∙ i.once;
    counted = ground (arith, i.counted);
    room = length-middle b used free ∙ i.room;
    fits = i.fits;
    spaced =
        IsSpaced-same q.msg_size (b ∷ used ++ free) (used ++ b ∷ free)
          (λ a. mem-middle a b used free) i.spaced;
  }
