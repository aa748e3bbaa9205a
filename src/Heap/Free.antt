-- ===== src/Heap/Free.antt =====
-- `rt_free`, os/rt-thread-nano/src/mem.c: what becomes of the blocks.
use lltrisc_v.Prelude.{
  ℕ, ◌+◌, ◌-◌, ◌≡◌, ◌∙◌, inl, inr, refl, sym, ap, arith, Bool, true, false, ◌||◌, List, [], ◌∷◌,
  ◌++◌, ◌==◌, if◌then◌else◌, update, ltb, leb, Bool-cases,
}
use lltrisc_v.Heap.{Heap, heap_end, header, plug_holes, rt_free, heap_magic, size_sub}
use lltrisc_v.Heap.Chain.{
  Segment, hole, kept, IsRun-le, IsRun-append, IsRun-split, IsRun-same, lowest, lowest-append,
  lowest-bounds, lowest-swap, merged, IsHeap,
}
use lltrisc_v.Heap.Plug.{IsLaid, absorb, joined, plug_holes-IsLaid, plug_holes-place, absorb-hole}

-- `mem->used = 0` and the lowest free block
abbrev freed : (x : ℕ) → Heap → Heap
freed x h = record h {
  used = update h.used x false;
  magic = update h.magic x heap_magic;
  lfree = if ltb x h.lfree then x else h.lfree;
  used_mem = size_sub h.used_mem (h.next x - x);
}

freed-IsLaid :
    (h : Heap) (pre post : List Segment) (x y : ℕ)
    → IsHeap h (pre ++ kept x y ∷ post)
    → IsLaid (freed x h) (pre ++ hole x y ∷ post)
freed-IsLaid h pre post x y i =
    let end = heap_end h in
    let h1 = freed x h in
    let (p1, q1, left, (at, u, n, v, room, right)) =
      IsRun-split h pre (kept x y ∷ post) 0 0 end i.last i.run in
    let further = IsRun-le h post y p1 end i.last right in
    let behind = lowest-bounds h post y p1 end i.last end right (omega arith) in
    let here = lowest-bounds h pre 0 0 p1 q1 x left (omega (arith, at)) in
    let was : h.lfree ≡ lowest pre (lowest post end) =
      i.low ∙ lowest-append pre (kept x y ∷ post) end in
    let lower : (if ltb x h.lfree then x else h.lfree) ≡ lowest pre x =
      ground (arith, was, here, behind, room, at, lowest-swap pre (lowest post end) x) in
    record {
      last = i.last;
      run =
          IsRun-append h1 pre (hole x y ∷ post) 0 0 p1 q1 end i.last
            (IsRun-same h h1 pre 0 0 p1 q1 (λ a low high. ground (arith, high, at)) left)
            (
              at,
              ground (arith, at),
              n,
              v,
              room,
              IsRun-same h h1 post y p1 end i.last (λ a low high. ground (arith, low, at, room))
                  right,
            );
      end_used = ground (arith, i.end_used, at, room, further);
      low = lower ∙ sym (lowest-append pre (hole x y ∷ post) end);
    }

freed_so :
    (h : Heap) (pre post : List Segment) (x y : ℕ)
    → IsHeap h (pre ++ kept x y ∷ post)
    → rt_free (h.heap_ptr + x + header) h ≡ plug_holes x (freed x h)
unfolding rt_free
freed_so h pre post x y i =
    let (p1, q1, left, (at, u, n, v, room, right)) =
      IsRun-split h pre (kept x y ∷ post) 0 0 (heap_end h) i.last i.run in
    let further = IsRun-le h post y p1 (heap_end h) i.last right in
    let offset : h.heap_ptr + x + header - header - h.heap_ptr ≡ x = omega arith in
    ap (λ o. call o) offset ∙ ground (arith, i.above, further, room, at)
  where
    call : ℕ → Heap
    call o =
        if h.heap_ptr + x + header == 0
        then h
        else if ltb (h.heap_ptr + x + header) h.heap_ptr
            || leb (h.heap_ptr + heap_end h) (h.heap_ptr + x + header)
        then h
        else plug_holes o (freed o h)

-- Is the first block in use, or is there none?
abbrev first_taken : List Segment → Bool
first_taken [] = true
first_taken (s ∷ ss) = s.taken

pub merged-cons :
    (s : Segment) (l : List Segment)
    → (s.taken || first_taken l) ≡ true
    → merged l ≡ true
    → merged (s ∷ l) ≡ true
merged-cons s [] h m = refl
merged-cons s (t ∷ l) h m = ground (arith, h, m)

pub merged-left : (l r : List Segment) → merged (l ++ r) ≡ true → merged l ≡ true
merged-left [] r m = refl
merged-left (s ∷ []) r m = refl
merged-left (s ∷ t ∷ l) r m = ground (arith, m, merged-left (t ∷ l) r)

pub merged-right : (l r : List Segment) → merged (l ++ r) ≡ true → merged r ≡ true
merged-right [] r m = m
merged-right (s ∷ []) [] m = refl
merged-right (s ∷ []) (t ∷ r) m = ground (arith, m)
merged-right (s ∷ t ∷ l) r m = merged-right (t ∷ l) r (ground (arith, m))

merged-absorb :
    (x y : ℕ) (post : List Segment) → merged post ≡ true → merged (absorb x y post) ≡ true
merged-absorb x y [] m = refl
merged-absorb x y (t ∷ []) m = ground (arith, m)
merged-absorb x y (t ∷ u ∷ ts) m = ground (arith, m)

merged-joined :
    (pre : List Segment) (x z : ℕ) (l : List Segment)
    → merged pre ≡ true
    → merged (hole x z ∷ l) ≡ true
    → merged (joined pre (hole x z ∷ l)) ≡ true
merged-joined [] x z l m n = n
merged-joined (t ∷ []) x z [] m n = ground (arith, n)
merged-joined (t ∷ []) x z (u ∷ l) m n = ground (arith, n)
merged-joined (t ∷ u ∷ []) x z l m n = elim (Bool-cases u.taken) [
  | inl e ↦ rw e (ground (arith, m, n, e))
  | inr e ↦
      merged-cons t (if u.taken then u ∷ hole x z ∷ l else hole u.start z ∷ l)
        (ground (arith, m, e)) (merged-joined (u ∷ []) x z l refl n)
]
merged-joined (t ∷ u ∷ v ∷ us) x z l m n =
    ground (arith, m, merged-joined (u ∷ v ∷ us) x z l (ground (arith, m)) n)

-- In a heap that is well formed rt_free, on the data of a block in use, frees that block and no other: it is
-- made one with a free block behind it and a free block before it, all other blocks stay where and what they
-- are, and the heap is well formed, with no two free blocks beside each other.
pub rt_free-IsHeap :
    (h : Heap) (pre post : List Segment) (x y : ℕ)
    → IsHeap h (pre ++ kept x y ∷ post)
    → IsHeap (rt_free (h.heap_ptr + x + header) h) (joined pre (absorb x y post))
rt_free-IsHeap h pre post x y i =
    let whole : rt_free (h.heap_ptr + x + header) h ≡ plug_holes x (freed x h) =
      freed_so h pre post x y i in
    let laid = plug_holes-IsLaid (freed x h) pre post x y (freed-IsLaid h pre post x y i) in
    let (ptr, size) = plug_holes-place x (freed x h) in
    rw whole record {
      last = laid.last;
      run = laid.run;
      end_used = laid.end_used;
      apart = still_apart;
      low = laid.low;
      fits = omega (arith, ptr, size, i.fits);
      big_enough = omega (arith, size, i.big_enough);
      above = omega (arith, ptr, i.above);
    }
  where
    still_apart : merged (joined pre (absorb x y post)) ≡ true
    still_apart =
        let (z, rest, e) = absorb-hole x y post in
        let behind = merged-right pre (kept x y ∷ post) i.apart in
        let holes = merged-absorb x y post (merged-right (kept x y ∷ []) post behind) in
        ap (λ l. merged (joined pre l)) e
        ∙ merged-joined pre x z rest (merged-left pre (kept x y ∷ post) i.apart)
            (sym (ap merged e) ∙ holes)
