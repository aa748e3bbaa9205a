-- ===== src/Heap.antt =====
-- The small memory allocator, os/rt-thread-nano/src/mem.c, for RV32 with RT_MEM_STATS. A block is named by
-- the offset of its header from `heap_ptr`. The semaphore of the heap makes a call one step.
pub mod Chain
pub mod Plug
pub mod Search
pub mod Take
pub mod Malloc
pub mod Start
pub mod Free
use lltrisc_v.Prelude.{
  ℕ, zero, suc, ◌+◌, ◌-◌, ◌*◌, ◌/◌, ◌%◌, ◌^◌, Bool, true, false, not, ◌&&◌, ◌||◌, Option, none,
  some, ◌==◌, if◌then◌else◌, ltb, leb, update,
}
use lltrisc_v.Memory.{Memory}
use lltrisc_v.Memory.Copy.{rt_memcpy}
use lltrisc_v.Memory.Fill.{rt_memset}

-- `struct heap_mem` of each block, and the variables of the allocator
pub record Heap : Type 0 where
  pub magic : ℕ → ℕ
  pub used : ℕ → Bool
  pub next : ℕ → ℕ
  pub prev : ℕ → ℕ
  pub heap_ptr : ℕ
  pub mem_size_aligned : ℕ
  pub lfree : ℕ
  pub used_mem : ℕ
  pub max_mem : ℕ

-- HEAP_MAGIC
abbrev pub heap_magic : ℕ
heap_magic = 7840

-- SIZEOF_STRUCT_MEM
abbrev pub header : ℕ
header = 12

-- MIN_SIZE_ALIGNED
abbrev pub min_size : ℕ
min_size = 12

-- `heap_end`
abbrev pub heap_end : Heap → ℕ
heap_end h = h.mem_size_aligned + header

-- `RT_ALIGN(size, RT_ALIGN_SIZE)` on 32 bits, with RT_ALIGN_SIZE 4
unfoldable pub align_up : ℕ → ℕ
align_up size = (size + 3) % 2 ^ 32 / 4 * 4

-- `a - b` of `rt_size_t`
abbrev pub size_sub : ℕ → ℕ → ℕ
size_sub a b = (a + 2 ^ 32 - b) % 2 ^ 32

-- The first half of `plug_holes`: the hole takes in an unused block behind it.
unfoldable pub plug_forward : (mem : ℕ) → Heap → Heap
plug_forward mem h =
    let nmem = h.next mem in
    if not (mem == nmem) && (not (h.used nmem) && not (nmem == heap_end h))
    then record h {
      lfree = if h.lfree == nmem then mem else h.lfree;
      next = update h.next mem (h.next nmem);
      prev = update h.prev (h.next nmem) mem;
    }
    else h

-- The second half: an unused block before the hole takes it in.
unfoldable pub plug_backward : (mem : ℕ) → Heap → Heap
plug_backward mem h =
    let pmem = h.prev mem in
    if not (pmem == mem) && not (h.used pmem)
    then record h {
      lfree = if h.lfree == mem then pmem else h.lfree;
      next = update h.next pmem (h.next mem);
      prev = update h.prev (h.next mem) pmem;
    }
    else h

-- `plug_holes`
unfoldable pub plug_holes : (mem : ℕ) → Heap → Heap
plug_holes mem h = plug_backward mem (plug_forward mem h)

-- `rt_system_heap_init`; `none` where the area is too small
unfoldable pub heap_init : (begin_addr end_addr : ℕ) → Heap → Option Heap
heap_init begin_addr end_addr h =
    let begin_align = align_up begin_addr in
    let end_align = end_addr / 4 * 4 in
    if ltb (2 * header) end_align && leb begin_align (end_align - 2 * header)
    then (let size = end_align - begin_align - 2 * header in
        some (record h {
          magic = update (update h.magic 0 heap_magic) (size + header) heap_magic;
          used = update (update h.used 0 false) (size + header) true;
          next = update (update h.next 0 (size + header)) (size + header) (size + header);
          prev = update (update h.prev 0 0) (size + header) (size + header);
          heap_ptr = begin_align;
          mem_size_aligned = size;
          lfree = 0;
        }))
    else none

-- The loop of `rt_malloc`: `none` is fuel spent, the inner `none` is no block that fits.
unfoldable pub find_fit : (fuel : ℕ) → Heap → (size ptr : ℕ) → Option (Option ℕ)
find_fit zero h size ptr = none
find_fit (suc fuel) h size ptr =
    let rest = find_fit fuel h size (h.next ptr) in
    if ltb ptr (size_sub h.mem_size_aligned size)
    then if not (h.used ptr) && leb size (size_sub (h.next ptr) (ptr + header))
      then some (some ptr)
      else rest
    else some none

-- `while (lfree->used && lfree != heap_end)`
unfoldable pub next_free : (fuel : ℕ) → Heap → (lfree : ℕ) → ℕ
next_free zero h lfree = lfree
next_free (suc fuel) h lfree =
    let rest = next_free fuel h (h.next lfree) in
    if h.used lfree && not (lfree == heap_end h) then rest else lfree

-- The block keeps `size` bytes, and the rest becomes a block of its own.
unfoldable pub split : (ptr size : ℕ) → Heap → Heap
split ptr size h =
    let ptr2 = ptr + header + size in
    record h {
      magic = update h.magic ptr2 heap_magic;
      used = update h.used ptr2 false;
      next = update (update h.next ptr2 (h.next ptr)) ptr ptr2;
      prev =
          if not (h.next ptr == heap_end h)
          then update (update h.prev ptr2 ptr) (h.next ptr) ptr2
          else update h.prev ptr2 ptr;
    }

-- `used_mem += n; if (max_mem < used_mem) max_mem = used_mem`
unfoldable pub count_used : ℕ → Heap → Heap
count_used n h =
    let now = (h.used_mem + n) % 2 ^ 32 in
    record h { used_mem = now; max_mem = if ltb h.max_mem now then now else h.max_mem }

-- The body of the loop of `rt_malloc` on the block that fits
unfoldable pub take_block : (ptr size : ℕ) → Heap → Heap
take_block ptr size h =
    let carved =
      if leb (size + header + min_size) (size_sub (h.next ptr) (ptr + header))
      then count_used (size + header) (split ptr size h)
      else count_used (h.next ptr - ptr) h in
    let taken = record carved {
      used = update carved.used ptr true;
      magic = update carved.magic ptr heap_magic;
    } in
    record taken {
      lfree = if ptr == h.lfree then next_free taken.mem_size_aligned taken h.lfree else h.lfree;
    }

-- `if (size < MIN_SIZE_ALIGNED) size = MIN_SIZE_ALIGNED`
abbrev pub malloc_size : ℕ → ℕ
malloc_size size = let aligned = align_up size in if ltb aligned min_size then min_size else aligned

-- `rt_malloc`; `none` is RT_NULL, and the fault of a search that does not end is the outer `none`. A search
-- goes on by a header or more in each round.
unfoldable pub rt_malloc : (size : ℕ) → Heap → Option (Option ℕ × Heap)
rt_malloc size h =
    if size == 0
    then some (none, h)
    else if ltb h.mem_size_aligned (align_up size)
    then some (none, h)
    else elim (find_fit h.mem_size_aligned h (malloc_size size) h.lfree) [
      | none ↦ none
      | some none ↦ some (none, h)
      | some (some ptr) ↦
          some (some (h.heap_ptr + ptr + header), take_block ptr (malloc_size size) h)
    ]

-- `rt_free`
unfoldable pub rt_free : (rmem : ℕ) → Heap → Heap
rt_free rmem h =
    let mem = rmem - header - h.heap_ptr in
    let freed = record h {
      used = update h.used mem false;
      magic = update h.magic mem heap_magic;
      lfree = if ltb mem h.lfree then mem else h.lfree;
      used_mem = size_sub h.used_mem (h.next mem - mem);
    } in
    if rmem == 0
    then h
    else if ltb rmem h.heap_ptr || leb (h.heap_ptr + heap_end h) rmem
    then h
    else plug_holes mem freed

-- `rt_realloc` where the block is cut
unfoldable pub cut_block : (ptr newsize size : ℕ) → Heap → Heap
cut_block ptr newsize size h =
    let ptr2 = ptr + header + newsize in
    let cut = split ptr newsize (record h { used_mem = size_sub h.used_mem (size - newsize) }) in
    plug_holes ptr2 (record cut { lfree = if ltb ptr2 h.lfree then ptr2 else h.lfree })

-- `rt_realloc`, with the memory that holds the data
unfoldable pub rt_realloc : (rmem newsize : ℕ) → Memory → Heap → Option (Option ℕ × Memory × Heap)
rt_realloc rmem newsize m h =
    let new = align_up newsize in
    let ptr = rmem - header - h.heap_ptr in
    let size = size_sub (size_sub (h.next ptr) ptr) header in
    if ltb h.mem_size_aligned new
    then some (none, m, h)
    else if new == 0
    then some (none, m, rt_free rmem h)
    else if rmem == 0
    then elim (rt_malloc new h) [ none ↦ none | some (p, h') ↦ some (p, m, h') ]
    else if ltb rmem h.heap_ptr || leb (h.heap_ptr + heap_end h) rmem
    then some (some rmem, m, h)
    else if size == new
    then some (some rmem, m, h)
    else if ltb (new + header + min_size) size
    then some (some rmem, m, cut_block ptr new size h)
    else elim (rt_malloc new h) [
      | none ↦ none
      | some (none, h') ↦ some (none, m, h')
      | some (some nmem, h') ↦
          some
            (some nmem, rt_memcpy m nmem rmem (if ltb size new then size else new), rt_free rmem h')
    ]

-- `rt_calloc`
unfoldable pub rt_calloc : (count size : ℕ) → Memory → Heap → Option (Option ℕ × Memory × Heap)
rt_calloc count size m h =
    let bytes = count * size % 2 ^ 32 in
    elim (rt_malloc bytes h) [
      | none ↦ none
      | some (none, h') ↦ some (none, m, h')
      | some (some p, h') ↦ some (some p, rt_memset m p 0 bytes, h')
    ]

-- `rt_memory_info`: the total, what is used, and the most that was used
unfoldable pub memory_info : Heap → ℕ × ℕ × ℕ
memory_info h = (h.mem_size_aligned, h.used_mem, h.max_mem)
