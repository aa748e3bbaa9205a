-- ===== src/Memory/Copy.antt =====
-- `rt_memcpy` and `rt_memmove`, os/rt-thread-nano/src/kservice.c: a copy byte by byte, forwards
-- or backwards, and by words where both areas are aligned.
pub mod Words
use lltrisc_v.Prelude.{
  ℕ, zero, suc, ◌+◌, ◌-◌, ◌*◌, ◌/◌, ◌%◌, ◌^◌, ◌<◌, ◌≤◌, ◌≡◌, ◌∙◌, ◌⊎◌, inl, inr, Bool, true, false,
  not, ◌&&◌, if◌then◌else◌, arith, update, ltb, leb, ◌==◌, refl, ap, Bool-cases,
}
use lltrisc_v.Memory.{Memory, IsBytes, within, read_word, write_word, word_bytes}

-- `*aligned_dst = *aligned_src`
unfoldable pub copy_word : Memory → (dst src : ℕ) → Memory
copy_word m dst src = write_word m dst (read_word m src)

-- `while (len >= BIGBLOCKSIZE)`, a round for a unit of fuel: memory, the pointers and what is left
unfoldable pub copy_blocks : (fuel : ℕ) → Memory → (dst src len : ℕ) → Memory × ℕ × ℕ × ℕ
copy_blocks zero m dst src len = (m, dst, src, len)
copy_blocks (suc fuel) m dst src len =
    let m1 = copy_word m dst src in
    let m2 = copy_word m1 (dst + 4) (src + 4) in
    let m3 = copy_word m2 (dst + 8) (src + 8) in
    let m4 = copy_word m3 (dst + 12) (src + 12) in
    let rest = copy_blocks fuel m4 (dst + 16) (src + 16) (len - 16) in
    if leb 16 len then rest else (m, dst, src, len)

-- `while (len >= LITTLEBLOCKSIZE)`
unfoldable pub copy_words : (fuel : ℕ) → Memory → (dst src len : ℕ) → Memory × ℕ × ℕ × ℕ
copy_words zero m dst src len = (m, dst, src, len)
copy_words (suc fuel) m dst src len =
    let rest = copy_words fuel (copy_word m dst src) (dst + 4) (src + 4) (len - 4) in
    if leb 4 len then rest else (m, dst, src, len)

-- `while (len--) *dst_ptr++ = *src_ptr++`
unfoldable pub copy_bytes : Memory → (dst src len : ℕ) → Memory
copy_bytes m dst src zero = m
copy_bytes m dst src (suc len) = copy_bytes (update m dst (m src)) (dst + 1) (src + 1) len

-- `rt_memcpy`; the count is fuel enough, since every round takes from it
unfoldable pub rt_memcpy : Memory → (dst src count : ℕ) → Memory
rt_memcpy m dst src count =
    let (blocks, dst1, src1, len1) = copy_blocks count m dst src count in
    let (words, dst2, src2, len2) = copy_words len1 blocks dst1 src1 len1 in
    if not (ltb count 16) && (dst % 4 == 0 && src % 4 == 0)
    then copy_bytes words dst2 src2 len2
    else copy_bytes m dst src count

-- `while (n--) *(--tmp) = *(--s)`
unfoldable pub copy_back : Memory → (tmp s n : ℕ) → Memory
copy_back m tmp s zero = m
copy_back m tmp s (suc n) = copy_back (update m (tmp - 1) (m (s - 1))) (tmp - 1) (s - 1) n

-- `rt_memmove`
unfoldable pub rt_memmove : Memory → (dest src n : ℕ) → Memory
rt_memmove m dest src n =
    if ltb src dest && ltb dest (src + n)
    then copy_back m (dest + n) (src + n) n
    else copy_bytes m dest src n

-- The memory `m'` is `m` with the `n` cells from `src` on, as `m` has them, in those from `dst` on.
abbrev pub Copied : Memory → (dst src n : ℕ) → Memory → Type 0
Copied m dst src n m' = (a : ℕ) → m' a ≡ (if within dst n a then m (src + (a - dst)) else m a)

-- No cell is written before it is read: the target does not start inside the source.
abbrev pub IsAhead : (dst src n : ℕ) → Type 0
IsAhead dst src n = (dst ≤ src) ⊎ (src + n ≤ dst)

pub Copied-join :
    (m m1 m2 : Memory) (dst src n k : ℕ)
    → IsAhead dst src (n + k)
    → Copied m dst src n m1
    → Copied m1 (dst + n) (src + n) k m2
    → Copied m dst src (n + k) m2
Copied-join m m1 m2 dst src n k h f g a = elim (Bool-cases (within (dst + n) k a)) [
  | inl e ↦
      let place : src + n + (a - (dst + n)) ≡ src + (a - dst) = ground (arith, e) in
      let read : m1 (src + (a - dst)) ≡ m (src + (a - dst)) =
        ground (arith, e, h, f (src + (a - dst))) in
      ground (arith, g a, e, ap m1 place, read)
  | inr e ↦ ground (arith, g a, e, f a)
]

-- The last cell first, then those below it.
last_first :
    (m : Memory) (dst src n a cell : ℕ)
    → src < dst
    → cell ≡ (
        if within dst n a
        then update m (dst + n) (m (src + n)) (src + (a - dst))
        else update m (dst + n) (m (src + n)) a)
    → cell ≡ (if within dst (suc n) a then m (src + (a - dst)) else m a)
last_first m dst src n a cell h e = elim (Bool-cases (dst + n == a)) [
  | inl at ↦
      let place : src + (a - dst) ≡ src + n = ground (arith, at) in
      ground (arith, e, at, ap m place)
  | inr off ↦ ground (arith, e, off, h)
]

copy_back-Copied :
    (m : Memory) (dst src n : ℕ)
    → src < dst
    → Copied m dst src n (copy_back m (dst + n) (src + n) n)
unfolding copy_back
copy_back-Copied m dst src zero h a = ground arith
copy_back-Copied m dst src (suc n) h a =
    let m1 = update m (dst + n) (m (src + n)) in
    let here : dst + suc n - 1 ≡ dst + n = omega arith in
    let there : src + suc n - 1 ≡ src + n = omega arith in
    rw here (
      rw there (
        last_first m dst src n a (copy_back m1 (dst + n) (src + n) n a) h
          (copy_back-Copied m1 dst src n h a)))

copy_byte-Copied : (m : Memory) (dst src : ℕ) → Copied m dst src 1 (update m dst (m src))
copy_byte-Copied m dst src a = elim (Bool-cases (dst == a)) [
  | inl at ↦
      let place : src + (a - dst) ≡ src = ground (arith, at) in ground (arith, at, ap m place)
  | inr off ↦ ground (arith, off)
]

pub copy_bytes-Copied :
    (m : Memory) (dst src n : ℕ) → IsAhead dst src n → Copied m dst src n (copy_bytes m dst src n)
unfolding copy_bytes
copy_bytes-Copied m dst src zero h = λ a. ground arith
copy_bytes-Copied m dst src (suc n) h =
    let m1 = update m dst (m src) in
    let joined =
      Copied-join m m1 (copy_bytes m1 (dst + 1) (src + 1) n) dst src 1 n (ground (arith, h))
        (copy_byte-Copied m dst src)
        (copy_bytes-Copied m1 (dst + 1) (src + 1) n (ground (arith, h))) in
    λ a. ground (arith, joined a)

-- rt_memmove, whatever the overlap of the two areas, leaves in the target the bytes that the source
-- held before the call, and all else as it was.
pub rt_memmove-Copied :
    (m : Memory) (dest src n : ℕ) → Copied m dest src n (rt_memmove m dest src n)
unfolding rt_memmove
rt_memmove-Copied m dest src n = elim (Bool-cases (ltb src dest && ltb dest (src + n))) [
  | inl e ↦ rw e (copy_back-Copied m dest src n (ground (arith, e)))
  | inr e ↦ rw e (copy_bytes-Copied m dest src n (ground (arith, e)))
]

pub Copied-IsBytes :
    (m m' : Memory) (dst src n : ℕ) → Copied m dst src n m' → IsBytes m → IsBytes m'
Copied-IsBytes m m' dst src n f h a = ground (arith, f a, h a, h (src + (a - dst)))

-- Outside of the target nothing changes.
pub Copied-outside :
    (m m' : Memory) (dst src n a : ℕ) → Copied m dst src n m' → within dst n a ≡ false → m' a ≡ m a
Copied-outside m m' dst src n a f e = f a ∙ ap (λ b. if b then m (src + (a - dst)) else m a) e
