-- ===== src/MemPool.antt =====
-- Memory pools, os/rt-thread-nano/src/mempool.c. The first word of a block is a store of its own, by the
-- address of the block: the next free block, with RT_NULL 0, or the pool of a block that is in use. Pools are
-- named by their addresses.
pub mod Blocks
pub mod Calls
pub mod Threads
use lltrisc_v.Prelude.{
  ℕ, zero, suc, ◌+◌, ◌-◌, ◌*◌, ◌/◌, ◌%◌, ◌^◌, Bool, true, false, not, ◌&&◌, Option, none, some,
  List, [], ◌∷◌, ◌==◌, if◌then◌else◌, update,
}
use lltrisc_v.Kernel.State.{Kernel, Err, eok, error, etimeout}
use lltrisc_v.Kernel.Lists.{set_error, fail}
use lltrisc_v.Kernel.Errno.{rt_set_errno}
use lltrisc_v.Scheduler.{schedule}
use lltrisc_v.Thread.{thread_suspend_call, thread_resume, start_thread_timer}
use lltrisc_v.Ipc.{is_positive, ipc_list_resume_all}
use lltrisc_v.Ipc.Mailbox.{time_left}
use lltrisc_v.Heap.{align_up}

-- `struct rt_mempool`; the list of suspended threads is named by its head.
pub record MemPool : Type 0 where
  pub start_address : ℕ
  pub size : ℕ
  pub block_size : ℕ
  pub block_list : ℕ
  pub block_total_count : ℕ
  pub block_free_count : ℕ
  pub suspend_thread : ℕ

-- The pools and the first words of their blocks
pub record Pools : Type 0 where
  pub pool : ℕ → MemPool
  pub word : ℕ → ℕ

-- sizeof(rt_uint8_t *)
abbrev pub link_size : ℕ
link_size = 4

-- The loop of `rt_mp_init` over `offset`, `left` rounds of it.
unfoldable pub link_blocks : (start stride offset left : ℕ) → (ℕ → ℕ) → ℕ → ℕ
link_blocks start stride offset zero word = word
link_blocks start stride offset (suc left) word =
    link_blocks start stride (offset + 1) left
      (update word (start + offset * stride) (start + (offset + 1) * stride))

-- `rt_mp_init`, up to the object container; `o` is the head of the list of suspended threads. With no block
-- the last write goes to the address before the pool, modulo 2^32.
unfoldable pub mp_init : (mp o start size block_size : ℕ) → Pools → Kernel → Pools × Kernel
mp_init mp o start size block_size ps k =
    let area = size / 4 * 4 in
    let block = align_up block_size in
    let stride = block + link_size in
    let count = area / stride in
    let linked = link_blocks start stride 0 count ps.word in
    (
      record {
        pool = update ps.pool mp (record {
          start_address = start;
          size = area;
          block_size = block;
          block_list = start;
          block_total_count = count;
          block_free_count = count;
          suspend_thread = o;
        });
        word = update linked ((start + 2 ^ 32 + count * stride - stride) % 2 ^ 32) 0;
      },
      record k { suspend_list = update k.suspend_list o [] },
    )

-- `rt_mp_detach`, up to the object container: its loop is that of `rt_ipc_list_resume_all`.
unfoldable pub mp_detach : MemPool → Kernel → Err × Kernel
mp_detach p k = (eok, ipc_list_resume_all p.suspend_thread k)

-- How `rt_mp_alloc` ends: with a pointer, or at `rt_schedule` with the thread suspended.
pub data Answer : Type 0 where
  gives : ℕ → Answer
  nothing : Answer
  sleeps : Answer

-- The end of `rt_mp_alloc`, with a free block
unfoldable pub mp_take : (mp : ℕ) → Pools → Answer × Pools
mp_take mp ps =
    let p = ps.pool mp in
    let block_ptr = p.block_list in
    (
      gives (block_ptr + link_size),
      record {
        pool = update ps.pool mp (record p {
          block_free_count = p.block_free_count - 1;
          block_list = ps.word block_ptr;
        });
        word = update ps.word block_ptr mp;
      },
    )

-- The thread waits: it stands before all that wait already.
unfoldable pub mp_wait : (o t time : ℕ) → Kernel → Kernel
mp_wait o t time k =
    let k1 = (thread_suspend_call t (set_error t eok k)).1 in
    let k2 = record k1 { suspend_list = update k1.suspend_list o (t ∷ k1.suspend_list o) } in
    schedule (if is_positive time then start_thread_timer t time k2 else k2)

-- `rt_mp_alloc` up to the first `rt_schedule`, with `__rt_errno`
unfoldable pub mp_alloc : (mp time : ℕ) → Pools → Err → Kernel → Answer × Pools × Err × Kernel
mp_alloc mp time ps errno k =
    let p = ps.pool mp in
    let (answer, taken) = mp_take mp ps in
    if p.block_free_count == 0
    then (if time == 0
        then (let (errno', k') = rt_set_errno etimeout errno k in (nothing, ps, errno', k'))
        else elim k.current_thread [
          | none ↦ (sleeps, ps, errno, fail k)
          | some t ↦ (sleeps, ps, errno, mp_wait p.suspend_thread t time k)
        ])
    else (answer, taken, errno, k)

-- `rt_mp_alloc` after `rt_schedule`, in thread `t`
unfoldable pub mp_alloc_resumed :
    (mp time start t : ℕ) → Pools → Err → Kernel → Answer × Pools × Err × Kernel
mp_alloc_resumed mp time start t ps errno k = elim (k.thread t).error [
  | eok ↦ mp_alloc mp (time_left time start k.tick) ps errno k
  | e ↦ (nothing, ps, errno, k)
]

-- A thread that waits is resumed: the last that came.
unfoldable pub mp_wake : (o : ℕ) → Kernel → Kernel
mp_wake o k = elim (k.suspend_list o) [
  | [] ↦ k
  | t ∷ ts ↦ schedule (thread_resume t (set_error t eok k)).1
]

-- `rt_mp_free`
unfoldable pub mp_free : (block : ℕ) → Pools → Kernel → Pools × Kernel
mp_free block ps k =
    let block_ptr = block - link_size in
    let mp = ps.word block_ptr in
    let p = ps.pool mp in
    let freed : Pools = record {
      pool = update ps.pool mp (record p {
        block_free_count = (p.block_free_count + 1) % 2 ^ 32;
        block_list = block_ptr;
      });
      word = update ps.word block_ptr p.block_list;
    } in
    if block == 0 then (ps, k) else (freed, mp_wake p.suspend_thread k)
