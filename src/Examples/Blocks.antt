-- ===== src/Examples/Blocks.antt =====
-- The theorems on the allocator, at a heap of 76 bytes.
use lltrisc_v.Prelude.{
  ℕ, ◌+◌, ◌-◌, ◌≤◌, ◌<◌, ◌≡◌, ◌⊎◌, refl, false, List, [], ◌∷◌, ◌++◌, none, some, arith, ◌==◌,
  if◌then◌else◌,
}
use lltrisc_v.Heap.{
  Heap, header, min_size, rt_malloc, rt_free, take_block, find_fit, align_up, malloc_size,
}
use lltrisc_v.Heap.Chain.{Segment, hole, kept, IsHeap}
use lltrisc_v.Heap.Plug.{absorb, joined}
use lltrisc_v.Heap.Search.{any_fits}
use lltrisc_v.Heap.Take.{carve, take_block-IsHeap}
use lltrisc_v.Heap.Free.{rt_free-IsHeap}
use lltrisc_v.Heap.Malloc.{rt_malloc-cases, rt_free-rt_malloc}
use lltrisc_v.Heap.Start.{rt_malloc-overflow}

-- One free block at address 1000.
abbrev fresh : Heap
fresh = record {
  magic = λ a. 7840;
  used = λ a. a == 88;
  next = λ a. 88;
  prev = λ a. if a == 88 then 88 else 0;
  heap_ptr = 1000;
  mem_size_aligned = 76;
  lfree = 0;
  used_mem = 0;
  max_mem = 0;
}

fresh-IsHeap : IsHeap fresh (hole 0 88 ∷ [])
fresh-IsHeap = record {
  last = 0;
  run = (refl, refl, refl, refl, omega arith, (refl, refl));
  end_used = refl;
  apart = refl;
  low = refl;
  fits = omega arith;
  big_enough = omega arith;
  above = omega arith;
}

rt_malloc-cases_example :
    ((rt_malloc 10 fresh ≡ some (none, fresh))
      × ((76 < align_up 10)
          ⊎ (any_fits (76 - malloc_size 10) (malloc_size 10) (hole 0 88 ∷ []) ≡ false)))
    ⊎ ((pre : List Segment) × (post : List Segment) × (x : ℕ) × (y : ℕ) × (h' : Heap) × (rt_malloc
            10 fresh
          ≡ some (some (1000 + x + header), h'))
        × (hole 0 88 ∷ [] ≡ pre ++ hole x y ∷ post)
        × (any_fits (76 - malloc_size 10) (malloc_size 10) pre ≡ false)
        × (x + header + 10 ≤ y)
        × (h'.heap_ptr ≡ 1000)
        × IsHeap h' (pre ++ carve x (malloc_size 10) y post))
rt_malloc-cases_example =
    rt_malloc-cases fresh (hole 0 88 ∷ []) 10 fresh-IsHeap (omega arith) (omega arith)

-- The block of 12 bytes that a request of 10 gets.
abbrev used_once : Heap
used_once = take_block 0 12 fresh

used_once-IsHeap : IsHeap used_once (kept 0 24 ∷ hole 24 88 ∷ [])
used_once-IsHeap = take_block-IsHeap fresh [] [] 0 88 12 fresh-IsHeap (omega arith) (omega arith)

rt_free-IsHeap_example :
    IsHeap
      (rt_free (used_once.heap_ptr + 0 + header) used_once)
      (joined [] (absorb 0 24 (hole 24 88 ∷ [])))
rt_free-IsHeap_example = rt_free-IsHeap used_once [] (hole 24 88 ∷ []) 0 24 used_once-IsHeap

gives : rt_malloc 10 fresh ≡ some (some 1012, used_once)
unfolding rt_malloc find_fit align_up
gives = refl

rt_free-rt_malloc_example : IsHeap (rt_free 1012 used_once) (hole 0 88 ∷ [])
rt_free-rt_malloc_example =
    rt_free-rt_malloc fresh used_once (hole 0 88 ∷ []) 10 1012 fresh-IsHeap (omega arith)
      (omega arith) gives

rt_malloc-overflow_example : rt_malloc 4294967294 fresh ≡ rt_malloc min_size fresh
rt_malloc-overflow_example =
    rt_malloc-overflow fresh 4294967294 (omega arith) (omega arith) (omega arith)

multiple : align_up 76 ≡ 76
unfolding align_up
multiple = refl
