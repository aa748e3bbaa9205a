-- ===== src/Memory/Fill.antt =====
-- `rt_memset`, os/rt-thread-nano/src/kservice.c: whole words where the area is aligned, bytes for the rest.
use lltrisc_v.Prelude.{
  ℕ, zero, suc, ◌+◌, ◌-◌, ◌*◌, ◌%◌, ◌^◌, ◌<◌, ◌≤◌, ◌≡◌, ◌∙◌, Bool, true, false, not, ◌&&◌,
  if◌then◌else◌, arith, update, ltb, leb, ◌==◌, bit_or, refl, ap,
}
use lltrisc_v.Memory.{Memory, within, write_word, word_bytes}
use lltrisc_v.Bits.{shift, or-shifted}

-- `buffer = (d << 8) | d; buffer |= (buffer << 16)`, on 32 bits
unfoldable pub fill_word : ℕ → ℕ
fill_word d = let buffer = bit_or (d * 2 ^ 8 % 2 ^ 32) d in bit_or buffer (buffer * 2 ^ 16 % 2 ^ 32)

-- `while (count >= LBLOCKSIZE * 4)`, a round for a unit of fuel: memory, the pointer and what is left
unfoldable pub fill_blocks : (fuel : ℕ) → Memory → (buffer at count : ℕ) → Memory × ℕ × ℕ
fill_blocks zero m buffer at count = (m, at, count)
fill_blocks (suc fuel) m buffer at count =
    let m1 = write_word m at buffer in
    let m2 = write_word m1 (at + 4) buffer in
    let m3 = write_word m2 (at + 8) buffer in
    let m4 = write_word m3 (at + 12) buffer in
    let rest = fill_blocks fuel m4 buffer (at + 16) (count - 16) in
    if leb 16 count then rest else (m, at, count)

-- `while (count >= LBLOCKSIZE)`
unfoldable pub fill_words : (fuel : ℕ) → Memory → (buffer at count : ℕ) → Memory × ℕ × ℕ
fill_words zero m buffer at count = (m, at, count)
fill_words (suc fuel) m buffer at count =
    let rest = fill_words fuel (write_word m at buffer) buffer (at + 4) (count - 4) in
    if leb 4 count then rest else (m, at, count)

-- `while (count--) *m++ = (char)d`
unfoldable pub fill_bytes : Memory → (d at count : ℕ) → Memory
fill_bytes m d at zero = m
fill_bytes m d at (suc count) = fill_bytes (update m at d) d (at + 1) count

-- `rt_memset`; the count is fuel enough, since every round takes from it
unfoldable pub rt_memset : Memory → (s c count : ℕ) → Memory
rt_memset m s c count =
    let d = c % 256 in
    let (blocks, at, left) = fill_blocks count m (fill_word d) s count in
    let (words, end, rest) = fill_words left blocks (fill_word d) at left in
    if not (ltb count 4) && s % 4 == 0 then fill_bytes words d end rest else fill_bytes m d s count

-- The memory `m'` is `m` with `d` in the `n` cells from `start` on.
abbrev pub Filled : Memory → (d start n : ℕ) → Memory → Type 0
Filled m d start n m' = (a : ℕ) → m' a ≡ (if within start n a then d else m a)

-- Two areas side by side are one.
Filled-join :
    (m m1 m2 : Memory) (d at n k : ℕ)
    → Filled m d at n m1
    → Filled m1 d (at + n) k m2
    → Filled m d at (n + k) m2
Filled-join m m1 m2 d at n k f g a = ground (arith, f a, g a)

fill_word-bytes : (d : ℕ) → d < 256 → fill_word d ≡ d + 256 * (d + 256 * (d + 256 * d))
unfolding fill_word
fill_word-bytes d h =
    let one : d * 2 ^ 8 % 2 ^ 32 ≡ shift 8 d = omega (arith, h) in
    let half : bit_or (d * 2 ^ 8 % 2 ^ 32) d ≡ d + 256 * d =
      ap (λ y. bit_or y d) one ∙ (or-shifted 8 d d h).0 ∙ omega arith in
    let two : (d + 256 * d) * 2 ^ 16 % 2 ^ 32 ≡ shift 16 (d + 256 * d) = omega (arith, h) in
    ap (λ y. bit_or y (y * 2 ^ 16 % 2 ^ 32)) half
    ∙ ap (λ y. bit_or (d + 256 * d) y) two
    ∙ (or-shifted 16 (d + 256 * d) (d + 256 * d) (omega (arith, h))).1
    ∙ omega arith

write_word-Filled :
    (m : Memory) (d at : ℕ) → d < 256 → Filled m d at 4 (write_word m at (fill_word d))
unfolding write_word
write_word-Filled m d at h a =
    let (p, q, r, s) = word_bytes (fill_word d) d d d d h h h h (fill_word-bytes d h) in
    ground (arith, p, q, r, s)

-- What a loop over blocks of `unit` bytes leaves: it fills what it has passed, and less than a block is left.
abbrev Swept : Memory → (d at count unit : ℕ) → Memory × ℕ × ℕ → Type 0
Swept m d at count unit (m', end, left) =
    Filled m d at (count - left) m' × (end + left ≡ at + count) × (left ≤ count) × (left < unit)

Swept-stop :
    (m : Memory) (d at count unit : ℕ) → count < unit → Swept m d at count unit (m, at, count)
Swept-stop m d at count unit h = ((λ a. ground arith), refl, omega arith, h)

Swept-step :
    (m m1 : Memory) (d at count block unit : ℕ) (end : Memory × ℕ × ℕ)
    → block ≤ count
    → Filled m d at block m1
    → Swept m1 d (at + block) (count - block) unit end
    → Swept m d at count unit end
Swept-step m m1 d at count block unit (m', end, left) h f (g, e, l, u) =
    let whole : block + (count - block - left) ≡ count - left = omega (arith, h, l) in
    let joined = Filled-join m m1 m' d at block (count - block - left) f g in
    (
      (λ a. joined a ∙ ap (λ n. if within at n a then d else m a) whole),
      omega (arith, e, h),
      omega (arith, l),
      u,
    )

Swept-if :
    (m : Memory) (d at count unit : ℕ) (b : Bool) (x y : Memory × ℕ × ℕ)
    → (b ≡ true → Swept m d at count unit x)
    → (b ≡ false → Swept m d at count unit y)
    → Swept m d at count unit (if b then x else y)
Swept-if m d at count unit true x y f g = f refl
Swept-if m d at count unit false x y f g = g refl

fill_words-Swept :
    (fuel : ℕ) (m : Memory) (d at count : ℕ)
    → d < 256
    → count ≤ fuel
    → Swept m d at count 4 (fill_words fuel m (fill_word d) at count)
unfolding fill_words
fill_words-Swept zero m d at count h k = Swept-stop m d at count 4 (omega (arith, k))
fill_words-Swept (suc fuel) m d at count h k =
    let m1 = write_word m at (fill_word d) in
    Swept-if m d at count 4 (leb 4 count) (fill_words fuel m1 (fill_word d) (at + 4) (count - 4))
      (m, at, count)
      (λ e.
        Swept-step m m1 d at count 4 4 (fill_words fuel m1 (fill_word d) (at + 4) (count - 4))
          (ground (arith, e)) (write_word-Filled m d at h)
          (fill_words-Swept fuel m1 d (at + 4) (count - 4) h (ground (arith, e))))
      (λ e. Swept-stop m d at count 4 (ground (arith, e)))

-- Four words, one after the other.
four_words : Memory → (buffer at : ℕ) → Memory
four_words m buffer at =
    write_word (write_word (write_word (write_word m at buffer) (at + 4) buffer) (at + 8) buffer)
      (at + 12) buffer

four_words-Filled :
    (m : Memory) (d at : ℕ) → d < 256 → Filled m d at 16 (four_words m (fill_word d) at)
unfolding four_words
four_words-Filled m d at h =
    let w = fill_word d in
    let m1 = write_word m at w in
    let m2 = write_word m1 (at + 4) w in
    let m3 = write_word m2 (at + 8) w in
    let m4 = write_word m3 (at + 12) w in
    let two =
      Filled-join m m1 m2 d at 4 4 (write_word-Filled m d at h)
        (write_word-Filled m1 d (at + 4) h) in
    let three = Filled-join m m2 m3 d at 8 4 two (write_word-Filled m2 d (at + 8) h) in
    Filled-join m m3 m4 d at 12 4 three (write_word-Filled m3 d (at + 12) h)

fill_blocks-Swept :
    (fuel : ℕ) (m : Memory) (d at count : ℕ)
    → d < 256
    → count ≤ fuel
    → Swept m d at count 16 (fill_blocks fuel m (fill_word d) at count)
unfolding fill_blocks four_words
fill_blocks-Swept zero m d at count h k = Swept-stop m d at count 16 (omega (arith, k))
fill_blocks-Swept (suc fuel) m d at count h k =
    let m1 = four_words m (fill_word d) at in
    Swept-if m d at count 16 (leb 16 count)
      (fill_blocks fuel m1 (fill_word d) (at + 16) (count - 16)) (m, at, count)
      (λ e.
        Swept-step m m1 d at count 16 16 (fill_blocks fuel m1 (fill_word d) (at + 16) (count - 16))
          (ground (arith, e)) (four_words-Filled m d at h)
          (fill_blocks-Swept fuel m1 d (at + 16) (count - 16) h (ground (arith, e))))
      (λ e. Swept-stop m d at count 16 (ground (arith, e)))

pub fill_bytes-Filled :
    (m : Memory) (d at count : ℕ) → Filled m d at count (fill_bytes m d at count)
unfolding fill_bytes
fill_bytes-Filled m d at zero = λ a. ground arith
fill_bytes-Filled m d at (suc count) =
    λ a. ground (arith, fill_bytes-Filled (update m at d) d (at + 1) count a)

-- What is left after a loop, in the hands of the next.
Filled-rest :
    (m m1 m2 : Memory) (d at count unit end left : ℕ)
    → Swept m d at count unit (m1, end, left)
    → Filled m1 d end left m2
    → Filled m d at count m2
Filled-rest m m1 m2 d at count unit end left (f, e, l, u) g a =
    let here : end ≡ at + (count - left) = omega (arith, e, l) in ground (arith, f a, g a, here, l)

-- rt_memset, which fills an aligned area by words, leaves memory as filling it byte by byte would: the
-- low byte of the value in each of the `count` cells from the address on, and all else as it was.
pub rt_memset-Filled :
    (m : Memory) (s c count : ℕ) → Filled m (c % 256) s count (rt_memset m s c count)
unfolding rt_memset
rt_memset-Filled m s c count =
    let d = c % 256 in
    let low : d < 256 = omega arith in
    let blocks = fill_blocks count m (fill_word d) s count in
    let words = fill_words blocks.2 blocks.0 (fill_word d) blocks.1 blocks.2 in
    let bytes = fill_bytes words.0 d words.1 words.2 in
    let rest =
      Filled-rest blocks.0 words.0 bytes d blocks.1 blocks.2 4 words.1 words.2
        (fill_words-Swept blocks.2 blocks.0 d blocks.1 blocks.2 low (omega arith))
        (fill_bytes-Filled words.0 d words.1 words.2) in
    let by_words =
      Filled-rest m blocks.0 bytes d s count 16 blocks.1 blocks.2
        (fill_blocks-Swept count m d s count low (omega arith)) rest in
    Filled-if m d s count (not (ltb count 4) && s % 4 == 0) bytes (fill_bytes m d s count) by_words
      (fill_bytes-Filled m d s count)
  where
    Filled-if :
        (m : Memory) (d s count : ℕ) (b : Bool) (x y : Memory)
        → Filled m d s count x
        → Filled m d s count y
        → Filled m d s count (if b then x else y)
    Filled-if m d s count true x y f g = f
    Filled-if m d s count false x y f g = g
