-- ===== src/MemPool/Calls.antt =====
-- Taking and giving back blocks of a memory pool, os/rt-thread-nano/src/mempool.c.
use lltrisc_v.Prelude.{
  ℕ, ◌+◌, ◌-◌, ◌%◌, ◌^◌, ◌<◌, ◌≡◌, ◌≢◌, ◌∙◌, refl, sym, ap, subst, arith, false, some, List, [],
  ◌∷◌, ◌==◌, if◌then◌else◌, update, mem, nodup, true, length, ==_refl,
}
use lltrisc_v.Kernel.State.{Kernel, Err, etimeout, has_stat, thread_ready}
use lltrisc_v.Scheduler.Invariant.{IsScheduled}
use lltrisc_v.MemPool.Threads.{
  WaitsFirst, mp_wait-WaitsFirst, WokenFirst, mp_wake-WokenFirst, mp_wake-nobody,
}
use lltrisc_v.Kernel.Errno.{rt_set_errno}
use lltrisc_v.MemPool.{
  Pools, link_size, Answer, gives, nothing, sleeps, mp_take, mp_wait, mp_alloc, mp_wake, mp_free,
}
use lltrisc_v.MemPool.Blocks.{IsFreeList, IsFreeList-update, IsPool}

module _ (ps : Pools) (mp b : ℕ) (rest : List ℕ) (i : IsPool ps mp (b ∷ rest)) where
  first_block : (ps.pool mp).block_list ≡ b
  first_block = i.chain.0

  pub take-IsPool : IsPool (mp_take mp ps).1 mp rest
  unfolding mp_take
  take-IsPool =
      let not_again : mem b rest ≡ false = ground (arith, i.once) in
      let ps' = (mp_take mp ps).1 in
      let head : (ps'.pool mp).block_list ≡ ps.word b =
        ground (arith, ==_refl mp, ap ps.word first_block) in
      let words : (λ a. update ps.word (ps.pool mp).block_list mp a) ≡ update ps.word b mp =
        ap (λ x. update ps.word x mp) first_block in
      record {
        chain =
            subst (λ w. IsFreeList w (ps'.pool mp).block_list rest) (sym words)
              (subst (λ p. IsFreeList (update ps.word b mp) p rest) (sym head)
                (IsFreeList-update ps.word (ps.word b) rest b mp not_again i.chain.2));
        once = ground (arith, i.once);
        counted = ground (arith, i.counted, ==_refl mp);
        fits = omega (arith, i.fits);
      }

  -- The block and its owner.
  take_gives : ((mp_take mp ps).0 ≡ gives (b + link_size)) × ((mp_take mp ps).1.word b ≡ mp)
  unfolding mp_take
  take_gives = (ap (λ x. gives (x + link_size)) first_block, ground (arith, first_block))

-- What rt_mp_alloc gives where `b` is free.
abbrev Given : (mp b : ℕ) (rest : List ℕ) → Err → Kernel → Answer × Pools × Err × Kernel → Type 0
Given mp b rest errno k (answer, ps', errno', k') =
    (answer ≡ gives (b + link_size))
    × IsPool ps' mp rest
    × (ps'.word b ≡ mp)
    × (errno' ≡ errno)
    × (k' ≡ k)

mp_alloc-Given :
    (ps : Pools) (mp time b : ℕ) (rest : List ℕ) (errno : Err) (k : Kernel)
    → IsPool ps mp (b ∷ rest)
    → Given mp b rest errno k (mp_alloc mp time ps errno k)
unfolding mp_alloc
mp_alloc-Given ps mp time b rest errno k i =
    let taken : mp_alloc mp time ps errno k ≡ ((mp_take mp ps).0, (mp_take mp ps).1, errno, k) =
      ground (arith, i.counted) in
    let (answer, owner) = take_gives ps mp b rest i in
    subst (Given mp b rest errno k) (sym taken)
      (answer, take-IsPool ps mp b rest i, owner, refl, refl)

-- rt_mp_alloc before it may wait, by a running thread, which is ready, in a consistent kernel with no timer
-- twice in the row, on a pool that is well formed: with a free block it gives the first of them, which names
-- the pool as its owner and is free no more, and leaves the error number and the kernel as they are; with none
-- it returns RT_NULL and sets -RT_ETIMEOUT if it may not wait, and else the thread is suspended before all
-- others of the pool, its error clear, its timer started for a positive time, and the scheduler is called.
pub mp_alloc-cases :
    (ps : Pools) (mp time t : ℕ) (free : List ℕ) (errno : Err) (k : Kernel)
    → IsPool ps mp free
    → IsScheduled k
    → k.current_thread ≡ some t
    → has_stat thread_ready (k.thread t) ≡ true
    → nodup k.timer_list ≡ true
    → let (answer, ps', errno', k') = mp_alloc mp time ps errno k in
      ((b : ℕ) (rest : List ℕ)
        → free ≡ b ∷ rest
        → (answer ≡ gives (b + link_size))
          × IsPool ps' mp rest
          × (ps'.word b ≡ mp)
          × (errno' ≡ errno)
          × (k' ≡ k))
      × (free ≡ []
          → time ≡ 0
          → (answer ≡ nothing) × (ps' ≡ ps) × ((errno', k') ≡ rt_set_errno etimeout errno k))
      × (free ≡ []
          → time ≢ 0
          → (answer ≡ sleeps)
            × (ps' ≡ ps)
            × (errno' ≡ errno)
            × WaitsFirst k (ps.pool mp).suspend_thread t time k')
unfolding mp_alloc
mp_alloc-cases ps mp time t free errno k i scheduled current ready once = (
  (λ b rest e. mp_alloc-Given ps mp time b rest errno k (rw e at i)),
  (λ e z.
      let empty : (ps.pool mp).block_free_count ≡ 0 = i.counted ∙ ap length e in
      ground (arith, empty, z)),
  (λ e n.
      let empty : (ps.pool mp).block_free_count ≡ 0 = i.counted ∙ ap length e in
      let o = (ps.pool mp).suspend_thread in
      let run : mp_alloc mp time ps errno k ≡ (sleeps, ps, errno, mp_wait o t time k) =
        ground (arith, empty, n, current) in
      rw run (refl, refl, refl, mp_wait-WaitsFirst k o t time scheduled ready once)),
)

-- The pools with block `b` given back to `mp`.
abbrev given_back : Pools → (b mp : ℕ) → Pools
given_back ps b mp =
    let p = ps.pool mp in
    record {
      pool =
          update ps.pool mp
            (record p { block_free_count = (p.block_free_count + 1) % 2 ^ 32; block_list = b });
      word = update ps.word b p.block_list;
    }

module _ (ps : Pools) (mp b : ℕ) (free : List ℕ) (i : IsPool ps mp free) (off : mem b free ≡ false)
    (above : 0 < b) (room : length free + 1 < 2 ^ 32) where
  given_back-IsPool : IsPool (given_back ps b mp) mp (b ∷ free)
  given_back-IsPool =
      let head : b ≡ ((given_back ps b mp).pool mp).block_list = ground (arith, ==_refl mp) in
      let link : (ps.pool mp).block_list ≡ (given_back ps b mp).word b =
        ground (arith, ==_refl b) in
      let old =
        IsFreeList-update ps.word (ps.pool mp).block_list free b (ps.pool mp).block_list off
          i.chain in
      record {
        chain =
            (sym head, above, subst (λ p. IsFreeList (given_back ps b mp).word p free) link old);
        once = ground (arith, off, i.once);
        counted = ground (arith, ==_refl mp, i.counted, room);
        fits = omega (arith, room);
      }

  back_so :
      (k : Kernel)
      → ps.word b ≡ mp
      → mp_free (b + link_size) ps k ≡ (given_back ps b mp, mp_wake (ps.pool mp).suspend_thread k)
  unfolding mp_free
  back_so k owner =
      let offset : b + link_size - link_size ≡ b = omega arith in
      ap (λ x. call x (ps.word x)) offset ∙ ap (call b) owner ∙ ground (arith, above)
    where
      call : (block_ptr owner : ℕ) → Pools × Kernel
      call x y =
          if b + link_size == 0
          then (ps, k)
          else (given_back ps x y, mp_wake (ps.pool y).suspend_thread k)

-- rt_mp_free, in a consistent kernel, on a block that names the pool as its owner and is not free, above
-- address 0 and with fewer than 2^32 blocks free after it: the block
-- is the first free one of that pool, the others follow, and no other pool changes. If threads wait for the
-- pool, the first of them in its list is ready, the last of its priority, its error clear, the others still
-- wait, and the scheduler is called; with none the kernel stays as it is. On RT_NULL nothing changes.
pub mp_free-IsPool :
    (ps : Pools) (mp b : ℕ) (free : List ℕ) (k : Kernel)
    → IsPool ps mp free
    → IsScheduled k
    → ps.word b ≡ mp
    → mem b free ≡ false
    → 0 < b
    → length free + 1 < 2 ^ 32
    → let (ps', k') = mp_free (b + link_size) ps k in
      let o = (ps.pool mp).suspend_thread in
      IsPool ps' mp (b ∷ free)
      × ((t : ℕ) (ts : List ℕ) → k.suspend_list o ≡ t ∷ ts → WokenFirst k o t ts k')
      × (k.suspend_list o ≡ [] → k' ≡ k)
      × ((other : ℕ) → other ≢ mp → ps'.pool other ≡ ps.pool other)
      × (mp_free 0 ps k ≡ (ps, k))
unfolding mp_free
mp_free-IsPool ps mp b free k i scheduled owner off above room =
    let o = (ps.pool mp).suspend_thread in
    rw (back_so ps mp b free i off above room k owner) (
      given_back-IsPool ps mp b free i off above room,
      (λ t ts e. mp_wake-WokenFirst k o t ts scheduled e),
      (λ e. mp_wake-nobody k o e),
      (λ other apart. ground (arith, apart)),
      refl,
    )

-- A block that rt_mp_alloc gives and that is given back at once is the first free block again: the pool has
-- the free blocks it had, in their order.
pub mp_free-mp_alloc :
    (ps : Pools) (mp b time t : ℕ) (rest : List ℕ) (errno : Err) (k : Kernel)
    → IsPool ps mp (b ∷ rest)
    → k.current_thread ≡ some t
    → let (answer, ps', errno', k') = mp_alloc mp time ps errno k in
      (answer ≡ gives (b + link_size)) × IsPool (mp_free (b + link_size) ps' k').0 mp (b ∷ rest)
mp_free-mp_alloc ps mp b time t rest errno k i current =
    let (answer, pool, owner, same, still) = mp_alloc-Given ps mp time b rest errno k i in
    let ps' : Pools = (mp_alloc mp time ps errno k).1 in
    let k' : Kernel = (mp_alloc mp time ps errno k).3 in
    let back =
      back_so ps' mp b rest pool (ground (arith, i.once)) i.chain.1 (omega (arith, i.fits)) k'
        owner in
    (
      answer,
      subst (λ (r : Pools × Kernel). IsPool r.0 mp (b ∷ rest)) (sym back)
          (given_back-IsPool ps' mp b rest pool (ground (arith, i.once)) i.chain.1
            (omega (arith, i.fits))),
    )
