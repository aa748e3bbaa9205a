-- ===== src/Heap/Malloc.antt =====
-- `rt_malloc` and its round trip with `rt_free`, os/rt-thread-nano/src/mem.c.
use lltrisc_v.Prelude.{
  ℕ, ◌+◌, ◌-◌, ◌^◌, ◌≤◌, ◌<◌, ◌≡◌, ◌∙◌, ◌⊎◌, inl, inr, refl, sym, ap, subst, arith, Bool, true,
  false, ◌||◌, Option, none, some, List, [], ◌∷◌, ◌++◌, if◌then◌else◌, ltb, leb, Bool-cases,
}
use lltrisc_v.Heap.{
  Heap, heap_end, header, min_size, find_fit, take_block, malloc_size, align_up, rt_malloc, rt_free,
}
use lltrisc_v.Heap.Chain.{Segment, hole, merged, IsHeap, lowest}
use lltrisc_v.Heap.Plug.{absorb, joined, hole_path}
use lltrisc_v.Heap.Search.{run_length, any_fits, IsFound, lowest_split, find_fit-IsFound}
use lltrisc_v.Heap.Take.{carve, take_block-IsHeap, take_block-place}
use lltrisc_v.Heap.Free.{rt_free-IsHeap}

malloc_size-bounds :
    (size : ℕ)
    → size + 3 < 2 ^ 32
    → (size ≤ malloc_size size) × (min_size ≤ malloc_size size) × (size ≤ align_up size)
unfolding align_up
malloc_size-bounds size h = ground (arith, h)

any_fits-append :
    (limit size : ℕ) (l r : List Segment)
    → any_fits limit size (l ++ r) ≡ (any_fits limit size l || any_fits limit size r)
any_fits-append limit size [] r = refl
any_fits-append limit size (s ∷ ss) r = ground (arith, any_fits-append limit size ss r)

append_assoc : (l m r : List Segment) → l ++ (m ++ r) ≡ (l ++ m) ++ r
append_assoc [] m r = refl
append_assoc (s ∷ ss) m r = ap (λ t. s ∷ t) (append_assoc ss m r)

-- The search from the lowest free block finds the first block of the heap that fits.
search_all :
    (h : Heap) (blocks : List Segment) (size : ℕ)
    → IsHeap h blocks
    → size ≤ h.mem_size_aligned
    → min_size ≤ size
    → IsFound (h.mem_size_aligned - size) size blocks (find_fit h.mem_size_aligned h size h.lfree)
search_all h blocks size i small big =
    let end = heap_end h in
    let limit = h.mem_size_aligned - size in
    let (before, rest, q, whole, run, none_fits) = lowest_split h blocks 0 0 end i.last i.run in
    let number = run_length h rest (lowest blocks end) q end i.last run in
    let found =
      find_fit-IsFound h.mem_size_aligned h size rest (lowest blocks end) q i.last run small
        (omega (arith, i.fits)) (omega (arith, number, i.big_enough)) big in
    subst (λ p. IsFound limit size blocks (find_fit h.mem_size_aligned h size p)) (sym i.low)
      (widened limit before rest whole (none_fits limit size)
        (find_fit h.mem_size_aligned h size (lowest blocks end)) found)
  where
    widened :
        (limit : ℕ) (before rest : List Segment)
        → blocks ≡ before ++ rest
        → any_fits limit size before ≡ false
        → (r : Option (Option ℕ)) → IsFound limit size rest r
        → IsFound limit size blocks r
    widened limit before rest whole off r (inl (e, f)) = inl (
      e,
      ap (any_fits limit size) whole
          ∙ ground (arith, any_fits-append limit size before rest, off, f),
    )
    widened limit before rest whole off r (inr (pre, s, post, cut, e, fit, early)) = inr (
      before ++ pre,
      s,
      post,
      whole ∙ ap (λ l. before ++ l) cut ∙ append_assoc before pre (s ∷ post),
      e,
      fit,
      ground (arith, any_fits-append limit size before pre, off, early),
    )

module _ (h : Heap) (size : ℕ) (some_bytes : 0 < size) where
  too_much : h.mem_size_aligned < align_up size → rt_malloc size h ≡ some (none, h)
  unfolding rt_malloc
  too_much more = ground (arith, some_bytes, more)

  none_fits :
      align_up size ≤ h.mem_size_aligned
      → find_fit h.mem_size_aligned h (malloc_size size) h.lfree ≡ some none
      → rt_malloc size h ≡ some (none, h)
  unfolding rt_malloc
  none_fits room e = ground (arith, some_bytes, room, e)

  one_fits :
      (x : ℕ)
      → align_up size ≤ h.mem_size_aligned
      → find_fit h.mem_size_aligned h (malloc_size size) h.lfree ≡ some (some x)
      → rt_malloc size h ≡ some (some (h.heap_ptr + x + header), take_block x (malloc_size size) h)
  unfolding rt_malloc
  one_fits x room e = ground (arith, some_bytes, room, e)

-- rt_malloc on a heap that is well formed, for a request of 1 to 2^32 - 4 bytes, always returns. It gives
-- RT_NULL and leaves the heap as it is where the request, made a multiple of 4, is more than the whole heap,
-- or where no free block that begins early enough has room. Else it gives the data of the first
-- free block that fits: that block is cut to the request, or taken whole if the rest would be too small, it
-- has at least the bytes asked for, all other blocks stay as they are, and the heap is well formed.
pub rt_malloc-cases :
    (h : Heap) (blocks : List Segment) (size : ℕ)
    → IsHeap h blocks
    → 0 < size
    → size + 3 < 2 ^ 32
    → let want = malloc_size size in
      let limit = h.mem_size_aligned - want in
      ((rt_malloc size h ≡ some (none, h))
        × ((h.mem_size_aligned < align_up size) ⊎ (any_fits limit want blocks ≡ false)))
      ⊎ ((pre : List Segment) × (post : List Segment) × (x : ℕ) × (y : ℕ) × (h' : Heap) × (rt_malloc
              size h
            ≡ some (some (h.heap_ptr + x + header), h'))
          × (blocks ≡ pre ++ hole x y ∷ post)
          × (any_fits limit want pre ≡ false)
          × (x + header + size ≤ y)
          × (h'.heap_ptr ≡ h.heap_ptr)
          × IsHeap h' (pre ++ carve x want y post))
rt_malloc-cases h blocks size i some_bytes sane =
    let want = malloc_size size in
    let limit = h.mem_size_aligned - want in
    let (enough, big, aligned) = malloc_size-bounds size sane in
    elim (Bool-cases (ltb h.mem_size_aligned (align_up size))) [
      | inl e ↦
          let more : h.mem_size_aligned < align_up size = ground (arith, e) in
          inl (too_much h size some_bytes more, inl more)
      | inr e ↦
          let room : align_up size ≤ h.mem_size_aligned = ground (arith, e) in
          let inside : want ≤ h.mem_size_aligned = ground (arith, room, i.big_enough) in
          elim (search_all h blocks want i inside big) [
            | inl (r, too_small) ↦ inl (none_fits h size some_bytes room r, inr too_small)
            | inr (pre, s, post, cut, r, fit, early) ↦
                let free : s.taken ≡ false = ground (arith, fit) in
                let space : s.start + header + want ≤ s.stop = ground (arith, fit) in
                let whole =
                  cut ∙ ap (λ t. pre ++ t ∷ post) (hole_path s s.start s.stop refl refl free) in
                inr (
                  pre,
                  post,
                  s.start,
                  s.stop,
                  take_block s.start want h,
                  one_fits h size some_bytes s.start room r,
                  whole,
                  early,
                  omega (arith, space, enough),
                  (take_block-place s.start want h).0,
                  take_block-IsHeap h pre post s.start s.stop want (subst (IsHeap h) whole i) space
                      big,
                )
          ]
    ]

joined_apart :
    (pre post : List Segment) (x y : ℕ)
    → merged (pre ++ hole x y ∷ post) ≡ true
    → joined pre (hole x y ∷ post) ≡ pre ++ hole x y ∷ post
joined_apart [] post x y m = refl
joined_apart (t ∷ []) post x y m =
    let used : t.taken ≡ true = ground (arith, m) in
    ap (λ b. if b then t ∷ hole x y ∷ post else hole t.start y ∷ post) used
joined_apart (t ∷ u ∷ us) post x y m =
    ap (λ l. t ∷ l) (joined_apart (u ∷ us) post x y (ground (arith, m)))

merged-after :
    (pre post : List Segment) (x y : ℕ)
    → merged (pre ++ hole x y ∷ post) ≡ true
    → absorb x y post ≡ hole x y ∷ post
merged-after pre [] x y m = refl
merged-after [] (t ∷ ts) x y m =
    let used : t.taken ≡ true = ground (arith, m) in
    ap (λ b. if b then hole x y ∷ t ∷ ts else hole x t.stop ∷ ts) used
merged-after (s ∷ []) (t ∷ ts) x y m = merged-after [] (t ∷ ts) x y (ground (arith, m))
merged-after (s ∷ u ∷ us) (t ∷ ts) x y m = merged-after (u ∷ us) (t ∷ ts) x y (ground (arith, m))

-- The block just carved, freed.
carve_freed :
    (h : Heap) (pre post : List Segment) (x want y : ℕ)
    → merged (pre ++ hole x y ∷ post) ≡ true
    → IsHeap h (pre ++ carve x want y post)
    → IsHeap (rt_free (h.heap_ptr + x + header) h) (pre ++ hole x y ∷ post)
carve_freed h pre post x want y m i =
    elim (Bool-cases (leb (want + header + min_size) (y - (x + header)))) [
      | inl e ↦
          let x2 = x + header + want in
          subst (IsHeap (rt_free (h.heap_ptr + x + header) h)) (joined_apart pre post x y m)
            (rt_free-IsHeap h pre (hole x2 y ∷ post) x x2 (rw e at i))
      | inr e ↦
          subst (IsHeap (rt_free (h.heap_ptr + x + header) h))
            (ap (joined pre) (merged-after pre post x y m) ∙ joined_apart pre post x y m)
            (rt_free-IsHeap h pre post x y (rw e at i))
    ]

-- On a heap that is well formed a block from rt_malloc that is freed at once leaves the blocks as they were:
-- the rest that was split off is taken in again.
pub rt_free-rt_malloc :
    (h h' : Heap) (blocks : List Segment) (size p : ℕ)
    → IsHeap h blocks
    → 0 < size
    → size + 3 < 2 ^ 32
    → rt_malloc size h ≡ some (some p, h')
    → IsHeap (rt_free p h') blocks
rt_free-rt_malloc h h' blocks size p i some_bytes sane e =
    elim (rt_malloc-cases h blocks size i some_bytes sane) [
      | inl (r, why) ↦ absurd (ground (arith, ap given r, ap given e))
      | inr (pre, post, x, y, h2, r, whole, early, space, place, heap) ↦
          let same_heap : h2 ≡ h' = ap after (sym r ∙ e) in
          let same_place : h.heap_ptr + x + header ≡ p = ap address (sym r ∙ e) in
          let there : h2.heap_ptr + x + header ≡ p = omega (arith, place, same_place) in
          let back =
            carve_freed h2 pre post x (malloc_size size) y (ap merged (sym whole) ∙ i.apart) heap in
          subst (λ g. IsHeap (rt_free p g) blocks) same_heap
            (subst (λ a. IsHeap (rt_free a h2) blocks) there
              (subst (IsHeap (rt_free (h2.heap_ptr + x + header) h2)) (sym whole) back))
    ]
  where
    after : Option (Option ℕ × Heap) → Heap
    after r = elim r [ none ↦ h | some (q, g) ↦ g ]

    address : Option (Option ℕ × Heap) → ℕ
    address r = elim r [ some (some q, g) ↦ q | _ ↦ 0 ]

    given : Option (Option ℕ × Heap) → Bool
    given r = elim r [ some (some q, g) ↦ true | _ ↦ false ]
