-- ===== src/MemPool/Blocks.antt =====
-- The free blocks of a memory pool, os/rt-thread-nano/src/mempool.c.
use native.Mathlib.Nat.{suc-mul, add-zero, zero-add, div-eq-sub-div, div-mul-le_self, div-le_self}
use native.Mathlib.Numerals.{add-one}
use lltrisc_v.Prelude.{
  ℕ, zero, suc, ◌+◌, ◌-◌, ◌*◌, ◌/◌, ◌%◌, ◌^◌, ◌≤◌, ◌<◌, ◌≡◌, ◌∙◌, refl, sym, ap, subst, arith, true,
  false, List, [], ◌∷◌, ◌==◌, update, mem, nodup, length, ==_refl,
}
use lltrisc_v.Kernel.State.{Kernel}
use lltrisc_v.Heap.{align_up}
use lltrisc_v.MemPool.{Pools, link_size, link_blocks, mp_init}

-- The free blocks that a pointer leads to.
abbrev pub IsFreeList : (ℕ → ℕ) → ℕ → List ℕ → Type 0
IsFreeList word p [] = p ≡ 0
IsFreeList word p (b ∷ bs) = (p ≡ b) × (0 < b) × IsFreeList word (word b) bs

pub IsFreeList-update :
    (word : ℕ → ℕ) (p : ℕ) (l : List ℕ) (a v : ℕ)
    → mem a l ≡ false
    → IsFreeList word p l
    → IsFreeList (update word a v) p l
IsFreeList-update word p [] a v h c = c
IsFreeList-update word p (b ∷ bs) a v h (e, n, c) =
    let test : (a == b) ≡ false = ground (arith, h) in
    (e, n, (rw test (IsFreeList-update word (word b) bs a v (ground (arith, h)) c)))

-- The pool at `mp` has the free blocks, each once, and counts them.
pub record IsPool (ps : Pools) (mp : ℕ) (free : List ℕ) : Type 0 where
  pub chain : IsFreeList ps.word (ps.pool mp).block_list free
  pub once : nodup free ≡ true
  pub counted : (ps.pool mp).block_free_count ≡ length free
  pub fits : length free < 2 ^ 32

-- `n` blocks from number `offset` on.
abbrev pub pool_run : (start stride offset n : ℕ) → List ℕ
pool_run start stride offset zero = []
pool_run start stride offset (suc n) =
    (start + offset * stride) ∷ pool_run start stride (offset + 1) n

module _ (start stride : ℕ) (some_bytes : 0 < stride) (above : 0 < start) where
  next_block : (offset : ℕ) → (offset + 1) * stride ≡ offset * stride + stride
  next_block offset = ap (λ n. n * stride) (add-one offset) ∙ suc-mul offset stride

  grows : (n k : ℕ) → k * stride ≤ (k + n) * stride
  grows zero k = omega (arith, ap (λ m. m * stride) (add-zero k))
  grows (suc n) k =
      let more : k + suc n ≡ suc (k + n) = omega arith in
      omega (arith, grows n k, ap (λ m. m * stride) more ∙ suc-mul (k + n) stride)

  link_blocks-below :
      (left offset : ℕ) (word : ℕ → ℕ) (a : ℕ)
      → a < start + offset * stride
      → link_blocks start stride offset left word a ≡ word a
  unfolding link_blocks
  link_blocks-below zero offset word a h = refl
  link_blocks-below (suc left) offset word a h =
      let further =
        link_blocks-below left (offset + 1)
          (update word (start + offset * stride) (start + (offset + 1) * stride)) a
          (omega (arith, next_block offset, h)) in
      ground (arith, further, h)

  pool_run-above :
      (n offset a : ℕ) → mem a (pool_run start stride offset n) ≡ true → start + offset * stride ≤ a
  pool_run-above zero offset a h = absurd (ground (arith, h))
  pool_run-above (suc n) offset a h =
      ground (arith, h, pool_run-above n (offset + 1) a, next_block offset)

  pool_run-once : (n offset : ℕ) → nodup (pool_run start stride offset n) ≡ true
  pool_run-once zero offset = refl
  pool_run-once (suc n) offset =
      let off : mem (start + offset * stride) (pool_run start stride (offset + 1) n) ≡ false =
        ground (
          arith,
          pool_run-above n (offset + 1) (start + offset * stride),
          next_block offset,
          some_bytes,
        ) in
      ground (arith, off, pool_run-once n (offset + 1))

  pool_run-length : (n offset : ℕ) → length (pool_run start stride offset n) ≡ n
  pool_run-length zero offset = refl
  pool_run-length (suc n) offset = ap suc (pool_run-length n (offset + 1))

  -- The address of the last of the blocks is the one whose word the source clears.
  link_blocks-IsFreeList :
      (n offset last : ℕ) (word : ℕ → ℕ)
      → last ≡ start + (offset + n) * stride
      → IsFreeList
          (update (link_blocks start stride offset (suc n) word) last 0)
          (start + offset * stride)
          (pool_run start stride offset (suc n))
  unfolding link_blocks
  link_blocks-IsFreeList zero offset last word e =
      let here : last ≡ start + offset * stride =
        e ∙ ap (λ n. start + n * stride) (add-zero offset) in
      (refl, omega (arith, above), ground (arith, here))
  link_blocks-IsFreeList (suc n) offset last word e =
      let word1 = update word (start + offset * stride) (start + (offset + 1) * stride) in
      let final = update (link_blocks start stride (offset + 1) (suc n) word1) last 0 in
      let order : offset + suc n ≡ offset + 1 + n = omega arith in
      let there : last ≡ start + (offset + 1 + n) * stride =
        e ∙ ap (λ k. start + k * stride) order in
      let below =
        link_blocks-below (suc n) (offset + 1) word1 (start + offset * stride)
          (omega (arith, next_block offset, some_bytes)) in
      let link : final (start + offset * stride) ≡ start + (offset + 1) * stride =
        ground (arith, below, there, grows n (offset + 1), next_block offset, some_bytes) in
      (
        refl,
        omega (arith, above),
        subst (λ p. IsFreeList final p (pool_run start stride (offset + 1) (suc n))) (sym link)
            (link_blocks-IsFreeList n (offset + 1) last word1 there),
      )

-- rt_mp_init, on an area below 2^32 that has room for a block and its link, makes a pool of all the blocks
-- that the area holds, each free once and counted.
pub mp_init-IsPool :
    (mp o start size block_size : ℕ) (ps : Pools) (k : Kernel)
    → let block = align_up block_size in
      let stride = block + link_size in
      0 < start
      → start + size < 2 ^ 32
      → stride ≤ size / 4 * 4
      → IsPool
          (mp_init mp o start size block_size ps k).0
          mp
          (pool_run start stride 0 (size / 4 * 4 / stride))
unfolding mp_init
mp_init-IsPool mp o start size block_size ps k above fits room =
    let stride = align_up block_size + link_size in
    let area = size / 4 * 4 in
    let count = area / stride in
    let some_bytes : 0 < stride = omega arith in
    let inside : area ≤ size = omega arith in
    let n = (area - stride) / stride in
    let one_more : count ≡ suc n = div-eq-sub-div some_bytes room ∙ add-one n in
    let held : count * stride ≤ area = div-mul-le_self area stride in
    let few : count ≤ area = div-le_self area stride in
    let bytes : count * stride ≡ n * stride + stride =
      ap (λ c. c * stride) one_more ∙ suc-mul n stride in
    let place : (start + 2 ^ 32 + count * stride - stride) % 2 ^ 32 ≡ start + (0 + n) * stride =
      omega (arith, bytes, held, inside, fits, ap (λ c. c * stride) (zero-add n)) in
    let result = (mp_init mp o start size block_size ps k).0 in
    let at_start : start ≡ (result.pool mp).block_list = ground (arith, ==_refl mp) in
    record {
      chain =
          subst (λ p. IsFreeList result.word p (pool_run start stride 0 count)) at_start
            (listed stride count n ((start + 2 ^ 32 + count * stride - stride) % 2 ^ 32) some_bytes
              one_more place);
      once = pool_run-once start stride some_bytes above count 0;
      counted = ground (arith, pool_run-length start stride some_bytes above count 0);
      fits =
          omega (arith, pool_run-length start stride some_bytes above count 0, few, inside, fits);
    }
  where
    listed :
        (stride count n last : ℕ)
        → 0 < stride
        → count ≡ suc n
        → last ≡ start + (0 + n) * stride
        → IsFreeList
            (update (link_blocks start stride 0 count ps.word) last 0)
            start
            (pool_run start stride 0 count)
    listed stride count n last some_bytes e place =
        let first : start + 0 * stride ≡ start = omega arith in
        let all = link_blocks-IsFreeList start stride some_bytes above n 0 last ps.word place in
        subst
          (λ c.
            IsFreeList (update (link_blocks start stride 0 c ps.word) last 0) start
              (pool_run start stride 0 c))
          (sym e)
          (subst
            (λ p.
              IsFreeList (update (link_blocks start stride 0 (suc n) ps.word) last 0) p
                (pool_run start stride 0 (suc n)))
            first all)
