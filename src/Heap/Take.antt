-- ===== src/Heap/Take.antt =====
-- `rt_malloc` on the block that fits, os/rt-thread-nano/src/mem.c: what becomes of the blocks.
use lltrisc_v.Prelude.{
  ℕ, ◌+◌, ◌-◌, ◌≤◌, ◌≡◌, ◌∙◌, inl, inr, refl, sym, ap, arith, true, false, List, [], ◌∷◌, ◌++◌,
  ◌==◌, if◌then◌else◌, update, leb, Bool-cases,
}
use lltrisc_v.Heap.{
  Heap, heap_end, header, min_size, heap_magic, next_free, size_sub, split, count_used, take_block,
}
use lltrisc_v.Heap.Chain.{
  Segment, hole, kept, IsRun, IsRun-le, IsRun-append, IsRun-same, IsRun-after, lowest,
  lowest-append, lowest-bounds, lowest-swap, merged, IsHeap,
}
use lltrisc_v.Heap.Plug.{IsLaid, hole_at}
use lltrisc_v.Heap.Search.{run_length, next_free-lowest}

-- The block `x` in use, before the lowest free block is looked for.
abbrev marked : (x : ℕ) → Heap → Heap
marked x h = record h { used = update h.used x true; magic = update h.magic x heap_magic }

-- The update of the lowest free block.
abbrev relowered : (x : ℕ) → Heap → Heap
relowered x h = record h {
  lfree = if x == h.lfree then next_free h.mem_size_aligned h h.lfree else h.lfree;
}

-- With the block at `x` taken, and maybe a free one split off behind it, the lowest free block is right.
relowered-IsLaid :
    (h : Heap) (pre rest : List Segment) (x q b last : ℕ)
    → IsRun h pre 0 0 x q
    → IsRun h (kept x b ∷ rest) x q (heap_end h) last
    → h.used (heap_end h) ≡ true
    → h.lfree ≡ lowest pre x
    → min_size ≤ h.mem_size_aligned
    → IsLaid (relowered x h) (pre ++ kept x b ∷ rest)
relowered-IsLaid h pre rest x q b last left right end low big =
    let e = heap_end h in
    let whole = IsRun-append h pre (kept x b ∷ rest) 0 0 x q e last left right in
    let size = run_length h (kept x b ∷ rest) x q e last right in
    let search =
      next_free-lowest h.mem_size_aligned h (kept x b ∷ rest) x q last right
        (omega (arith, size, big)) in
    let (at, u, n, v, room, tail) = right in
    let behind = lowest-bounds h rest b x e last e tail (omega arith) in
    let w = lowest rest e in
    let before = lowest-bounds h pre 0 0 x q w left (omega (arith, behind, room)) in
    let below = lowest-bounds h pre 0 0 x q x left (omega arith) in
    let found : (if x == h.lfree then next_free h.mem_size_aligned h h.lfree else h.lfree)
        ≡ lowest pre w =
      elim (Bool-cases (x == h.lfree)) [
        | inl here ↦
            let at_low : h.lfree ≡ x = ground (arith, here) in
            ground (
              arith,
              here,
              ap (next_free h.mem_size_aligned h) at_low,
              search,
              low,
              lowest-swap pre x w,
              before,
              behind,
              room,
            )
        | inr off ↦ ground (arith, off, low, lowest-swap pre x w, before, below, behind, room)
      ] in
    record {
      last = last;
      run =
          IsRun-same h (relowered x h) (pre ++ kept x b ∷ rest) 0 0 e last
            (λ a l k. (refl, refl, refl)) whole;
      end_used = end;
      low = found ∙ sym (lowest-append pre (kept x b ∷ rest) e);
    }

-- The blocks that `size` bytes at `x` leave of a free block.
abbrev pub carve : (x size y : ℕ) → List Segment → List Segment
carve x size y post =
    if leb (size + header + min_size) (y - (x + header))
    then kept x (x + header + size) ∷ hole (x + header + size) y ∷ post
    else kept x y ∷ post

module _ (h : Heap) (pre post : List Segment) (x y size : ℕ) (i : IsHeap h (pre ++ hole x y ∷ post))
    (room_for : x + header + size ≤ y) (big : min_size ≤ size) where
  laid : IsLaid h (pre ++ hole x y ∷ post)
  laid = record { last = i.last; run = i.run; end_used = i.end_used; low = i.low }

  low_before : h.lfree ≡ lowest pre x
  low_before = i.low ∙ lowest-append pre (hole x y ∷ post) (heap_end h)

  room_behind : h.next x ≡ y → y ≤ heap_end h → size_sub (h.next x) (x + header) ≡ y - (x + header)
  room_behind n further = omega (arith, n, room_for, further, i.fits)

  take_whole :
      leb (size + header + min_size) (y - (x + header)) ≡ false
      → IsLaid (take_block x size h) (pre ++ kept x y ∷ post)
  unfolding take_block count_used
  take_whole small =
      let end = heap_end h in
      let (q, n, room, left, v, right) = hole_at h pre post x y laid in
      let further = IsRun-le h post y x end laid.last right in
      let h1 = marked x (count_used (h.next x - x) h) in
      let test : leb (size + header + min_size) (size_sub (h.next x) (x + header)) ≡ false =
        ap (leb (size + header + min_size)) (room_behind n further) ∙ small in
      let taken : take_block x size h ≡ relowered x h1 = ground (arith, test) in
      rw taken (
        relowered-IsLaid h1 pre post x q y laid.last
          (IsRun-same h h1 pre 0 0 x q (λ a low high. ground (arith, high)) left)
          (
            refl,
            ground arith,
            n,
            v,
            room,
            IsRun-same h h1 post y x end laid.last (λ a low high. ground (arith, low, room)) right,
          )
          (ground (arith, i.end_used)) low_before i.big_enough)

  take_part :
      leb (size + header + min_size) (y - (x + header)) ≡ true
      → IsLaid
          (take_block x size h)
          (pre ++ kept x (x + header + size) ∷ hole (x + header + size) y ∷ post)
  unfolding take_block count_used split
  take_part wide =
      let end = heap_end h in
      let x2 = x + header + size in
      let (q, n, room, left, v, right) = hole_at h pre post x y laid in
      let further = IsRun-le h post y x end laid.last right in
      let h1 = marked x (count_used (size + header) (split x size h)) in
      let test : leb (size + header + min_size) (size_sub (h.next x) (x + header)) ≡ true =
        ap (leb (size + header + min_size)) (room_behind n further) ∙ wide in
      let taken : take_block x size h ≡ relowered x h1 = ground (arith, test) in
      let (last, behind) =
        IsRun-after h h1 post y x end laid.last x2 (λ a low high. ground (arith, low, wide))
          (λ a low high. ground (arith, low, wide, n)) (λ inside. ground (arith, inside, n))
          right in
      rw taken (
        relowered-IsLaid h1 pre (hole x2 y ∷ post) x q x2 last
          (IsRun-same h h1 pre 0 0 x q (λ a low high. ground (arith, high, n, room)) left)
          (
            refl,
            ground arith,
            ground arith,
            ground (arith, v, n, room),
            omega (arith, big),
            (
              refl,
              ground arith,
              ground (arith, n),
              ground (arith, n, wide),
              ground (arith, wide),
              behind,
            ),
          )
          (ground (arith, i.end_used, further, wide)) low_before i.big_enough)

pub take_block-place :
    (x size : ℕ) (h : Heap)
    → ((take_block x size h).heap_ptr ≡ h.heap_ptr)
      × ((take_block x size h).mem_size_aligned ≡ h.mem_size_aligned)
unfolding take_block count_used split
take_block-place x size h = ground arith

merged-kept :
    (pre post : List Segment) (x y b : ℕ)
    → merged (pre ++ hole x y ∷ post) ≡ true
    → merged (pre ++ kept x b ∷ post) ≡ true
merged-kept [] [] x y b m = refl
merged-kept [] (t ∷ ts) x y b m = ground (arith, m)
merged-kept (t ∷ []) post x y b m = ground (arith, m, merged-kept [] post x y b)
merged-kept (t ∷ u ∷ us) post x y b m = ground (arith, m, merged-kept (u ∷ us) post x y b)

merged-part :
    (pre post : List Segment) (x y b c : ℕ)
    → merged (pre ++ hole x y ∷ post) ≡ true
    → merged (pre ++ kept x b ∷ hole c y ∷ post) ≡ true
merged-part [] [] x y b c m = refl
merged-part [] (t ∷ ts) x y b c m = ground (arith, m)
merged-part (t ∷ []) post x y b c m = ground (arith, m, merged-part [] post x y b c)
merged-part (t ∷ u ∷ us) post x y b c m = ground (arith, m, merged-part (u ∷ us) post x y b c)

-- Taking `size` bytes of a free block leaves the heap well formed.
pub take_block-IsHeap :
    (h : Heap) (pre post : List Segment) (x y size : ℕ)
    → IsHeap h (pre ++ hole x y ∷ post)
    → x + header + size ≤ y
    → min_size ≤ size
    → IsHeap (take_block x size h) (pre ++ carve x size y post)
take_block-IsHeap h pre post x y size i room_for big =
    elim (Bool-cases (leb (size + header + min_size) (y - (x + header)))) [
      | inl e ↦ rw e (
          whole (pre ++ kept x (x + header + size) ∷ hole (x + header + size) y ∷ post)
            (take_part h pre post x y size i room_for big e)
            (merged-part pre post x y (x + header + size) (x + header + size) i.apart))
      | inr e ↦ rw e (
          whole (pre ++ kept x y ∷ post) (take_whole h pre post x y size i room_for big e)
            (merged-kept pre post x y y i.apart))
    ]
  where
    whole :
        (l : List Segment)
        → IsLaid (take_block x size h) l
        → merged l ≡ true
        → IsHeap (take_block x size h) l
    whole l laid m =
        let (ptr, bytes) = take_block-place x size h in
        record {
          last = laid.last;
          run = laid.run;
          end_used = laid.end_used;
          apart = m;
          low = laid.low;
          fits = omega (arith, ptr, bytes, i.fits);
          big_enough = omega (arith, bytes, i.big_enough);
          above = omega (arith, ptr, i.above);
        }
