-- ===== src/Heap/Start.antt =====
-- The heap at its start, `rt_calloc`, and the requests at the limits, os/rt-thread-nano/src/mem.c.
use lltrisc_v.Prelude.{
  ℕ, zero, suc, ◌+◌, ◌-◌, ◌*◌, ◌/◌, ◌%◌, ◌^◌, ◌≤◌, ◌<◌, ◌≡◌, ◌∙◌, refl, sym, ap, subst, arith, true,
  false, Option, none, some, [], ◌∷◌, update,
}
use lltrisc_v.Memory.{Memory}
use lltrisc_v.Memory.Fill.{Filled, rt_memset, rt_memset-Filled}
use lltrisc_v.Heap.{
  Heap, heap_end, header, min_size, heap_magic, size_sub, heap_init, find_fit, take_block,
  malloc_size, align_up, rt_malloc, rt_calloc,
}
use lltrisc_v.Heap.Chain.{hole, IsHeap}

-- rt_system_heap_init, on an area between addresses from 4 to 2^32 - 4 with room for two headers and 12
-- bytes, makes a well-formed heap of a single free block.
pub heap_init-IsHeap :
    (begin_addr end_addr : ℕ) (h : Heap)
    → 4 ≤ begin_addr
    → end_addr < 2 ^ 32
    → begin_addr + 3 * header + 3 ≤ end_addr / 4 * 4
    → (h' : Heap) × (heap_init begin_addr end_addr h ≡ some h')
      × IsHeap h' (hole 0 (heap_end h') ∷ [])
unfolding heap_init align_up
heap_init-IsHeap begin_addr end_addr h low high room =
    let begin_align = align_up begin_addr in
    let end_align = end_addr / 4 * 4 in
    let size = end_align - begin_align - 2 * header in
    let made : Heap = record h {
      magic = update (update h.magic 0 heap_magic) (size + header) heap_magic;
      used = update (update h.used 0 false) (size + header) true;
      next = update (update h.next 0 (size + header)) (size + header) (size + header);
      prev = update (update h.prev 0 0) (size + header) (size + header);
      heap_ptr = begin_align;
      mem_size_aligned = size;
      lfree = 0;
    } in
    let begin_fits : begin_align ≤ begin_addr + 3 = omega (arith, low, high, room) in
    let begin_more : begin_addr ≤ begin_align = omega (arith, low, high, room) in
    (
      made,
      ground (arith, room, low, high),
      record {
        last = 0;
        run = (
          refl,
          ground arith,
          ground arith,
          ground arith,
          omega (arith, room, begin_fits),
          (refl, refl),
        );
        end_used = ground arith;
        apart = refl;
        low = refl;
        fits = omega (arith, room, begin_fits, high);
        big_enough = omega (arith, room, begin_fits);
        above = omega (arith, begin_more, low);
      },
    )

-- A request of 2^32 - 3 bytes or more is answered as one of 12 bytes: rounded up to a multiple of 4 it is 0.
pub rt_malloc-overflow :
    (h : Heap) (size : ℕ)
    → min_size ≤ h.mem_size_aligned
    → 2 ^ 32 ≤ size + 3
    → size < 2 ^ 32
    → rt_malloc size h ≡ rt_malloc min_size h
unfolding rt_malloc align_up
rt_malloc-overflow h size room more word =
    let zero_size : align_up size ≡ 0 = omega (arith, more, word) in
    let same : malloc_size size ≡ min_size = ground (arith, zero_size) in
    let asked : rt_malloc size h ≡ answer (malloc_size size) = ground (arith, zero_size, more) in
    let twelve : rt_malloc min_size h ≡ answer min_size = ground (arith, room) in
    asked ∙ ap answer same ∙ sym twelve
  where
    answer : ℕ → Option (Option ℕ × Heap)
    answer want = elim (find_fit h.mem_size_aligned h want h.lfree) [
      | none ↦ none
      | some none ↦ some (none, h)
      | some (some ptr) ↦ some (some (h.heap_ptr + ptr + header), take_block ptr want h)
    ]

at_limit :
    (fuel : ℕ) (h : Heap) (size p : ℕ)
    → 0 < fuel
    → size_sub h.mem_size_aligned size ≡ 0
    → find_fit fuel h size p ≡ some none
unfolding find_fit
at_limit zero h size p k e = absurd (omega (arith, k))
at_limit (suc fuel) h size p k e = ground (arith, e)

-- rt_malloc finds no memory for a request of the whole heap, a multiple of 4, even while the heap is one free
-- block of just that many bytes.
pub rt_malloc-whole :
    (h : Heap)
    → IsHeap h (hole 0 (heap_end h) ∷ [])
    → align_up h.mem_size_aligned ≡ h.mem_size_aligned
    → (h.next 0 - header ≡ h.mem_size_aligned)
      × (h.used 0 ≡ false)
      × (rt_malloc h.mem_size_aligned h ≡ some (none, h))
unfolding rt_malloc
rt_malloc-whole h i multiple =
    let (at, u, n, v, room, (e, f)) = i.run in
    let size : malloc_size h.mem_size_aligned ≡ h.mem_size_aligned =
      ground (arith, multiple, i.big_enough) in
    let limit : size_sub h.mem_size_aligned (malloc_size h.mem_size_aligned) ≡ 0 =
      omega (arith, size, i.fits) in
    let search =
      at_limit h.mem_size_aligned h (malloc_size h.mem_size_aligned) h.lfree
        (omega (arith, i.big_enough)) limit in
    (omega (arith, n), u, ground (arith, multiple, i.big_enough, search))

-- What rt_calloc makes of the answer of rt_malloc.
cleared : ℕ → Memory → Option (Option ℕ × Heap) → Option (Option ℕ × Memory × Heap)
cleared bytes m r = elim r [
  | none ↦ none
  | some (none, g) ↦ some (none, m, g)
  | some (some q, g) ↦ some (some q, rt_memset m q 0 bytes, g)
]

address : Option (Option ℕ × Memory × Heap) → ℕ
address r = elim r [ some (some q, m, g) ↦ q | _ ↦ 0 ]

contents : Memory → Option (Option ℕ × Memory × Heap) → Memory
contents m r = elim r [ none ↦ m | some (q, n, g) ↦ n ]

cleared-Filled :
    (bytes p : ℕ) (m m' : Memory) (h' : Heap) (r : Option (Option ℕ × Heap))
    → cleared bytes m r ≡ some (some p, m', h')
    → Filled m 0 p bytes m'
unfolding cleared address contents
cleared-Filled bytes p m m' h' none e = absurd (ground (arith, e))
cleared-Filled bytes p m m' h' (some (none, g)) e = absurd (ground (arith, e))
cleared-Filled bytes p m m' h' (some (some q, g)) e =
    let place : q ≡ p = ap address e in
    let memory : rt_memset m q 0 bytes ≡ m' = ap (contents m) e in
    subst (Filled m 0 p bytes) memory
      (subst (λ x. Filled m 0 x bytes (rt_memset m q 0 bytes)) place (rt_memset-Filled m q 0 bytes))

-- Memory that rt_calloc gives is all zero, for as many bytes as the product of its arguments is modulo 2^32;
-- no other byte of memory changes.
pub rt_calloc-Filled :
    (count size p : ℕ) (m m' : Memory) (h h' : Heap)
    → rt_calloc count size m h ≡ some (some p, m', h')
    → Filled m 0 p (count * size % 2 ^ 32) m'
unfolding rt_calloc cleared
rt_calloc-Filled count size p m m' h h' e =
    let bytes = count * size % 2 ^ 32 in cleared-Filled bytes p m m' h' (rt_malloc bytes h) e
