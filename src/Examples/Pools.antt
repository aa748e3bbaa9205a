-- ===== src/Examples/Pools.antt =====
-- The theorems on memory pools, at a pool of two blocks of eight bytes.
use lltrisc_v.Prelude.{List, ℕ, ◌+◌, ◌≡◌, ◌≢◌, refl, [], ◌∷◌, arith}
use lltrisc_v.Kernel.State.{eok}
use lltrisc_v.Heap.{align_up}
use lltrisc_v.MemPool.{Pools, link_size, link_blocks, mp_init, gives, mp_take, mp_alloc, mp_free}
use lltrisc_v.MemPool.Blocks.{IsPool, mp_init-IsPool}
use lltrisc_v.MemPool.Calls.{mp_alloc-cases, mp_free-IsPool, take-IsPool}
use lltrisc_v.Examples.States.{
  running, running-current, running-ready, running-once, running-IsScheduled,
}
use lltrisc_v.MemPool.Threads.{WokenFirst}

abbrev no_pools : Pools
no_pools = record {
  pool = λ mp. record {
    start_address = 0;
    size = 0;
    block_size = 0;
    block_list = 0;
    block_total_count = 0;
    block_free_count = 0;
    suspend_thread = 0;
  };
  word = λ a. 0;
}

abbrev two_blocks : Pools
two_blocks = (mp_init 500 20 1000 25 6 no_pools running).0

two_blocks-IsPool : IsPool two_blocks 500 (1000 ∷ 1012 ∷ [])
unfolding align_up
two_blocks-IsPool =
    mp_init-IsPool 500 20 1000 25 6 no_pools running (omega arith) (omega arith) (omega arith)

mp_alloc-cases_example :
    let (answer, ps', errno', k') = mp_alloc 500 7 two_blocks eok running in
    (answer ≡ gives (1000 + link_size))
    × IsPool ps' 500 (1012 ∷ [])
    × (ps'.word 1000 ≡ 500)
    × (errno' ≡ eok)
    × (k' ≡ running)
mp_alloc-cases_example =
    (mp_alloc-cases two_blocks 500 7 1 (1000 ∷ 1012 ∷ []) eok running two_blocks-IsPool
        running-IsScheduled running-current running-ready running-once).0
      1000 (1012 ∷ []) refl

abbrev one_taken : Pools
one_taken = (mp_take 500 two_blocks).1

one_taken-owner : one_taken.word 1000 ≡ 500
unfolding mp_take mp_init link_blocks align_up
one_taken-owner = refl

mp_free-IsPool_example :
    let (ps', k') = mp_free (1000 + link_size) one_taken running in
    IsPool ps' 500 (1000 ∷ 1012 ∷ [])
    × ((t : ℕ) (ts : List ℕ)
        → running.suspend_list (one_taken.pool 500).suspend_thread ≡ t ∷ ts
        → WokenFirst running (one_taken.pool 500).suspend_thread t ts k')
    × (running.suspend_list (one_taken.pool 500).suspend_thread ≡ [] → k' ≡ running)
    × ((other : ℕ) → other ≢ 500 → ps'.pool other ≡ one_taken.pool other)
    × (mp_free 0 one_taken running ≡ (one_taken, running))
mp_free-IsPool_example =
    mp_free-IsPool one_taken 500 1000 (1012 ∷ []) running
      (take-IsPool two_blocks 500 1000 (1012 ∷ []) two_blocks-IsPool) running-IsScheduled
      one_taken-owner refl (omega arith) (omega arith)
