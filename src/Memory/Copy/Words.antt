-- ===== src/Memory/Copy/Words.antt =====
-- The word loops of `rt_memcpy`, os/rt-thread-nano/src/kservice.c.
use lltrisc_v.Prelude.{
  ℕ, zero, suc, ◌+◌, ◌-◌, ◌%◌, ◌<◌, ◌≤◌, ◌≡◌, ◌∙◌, inl, inr, Bool, true, false, not, ◌&&◌,
  if◌then◌else◌, arith, ltb, leb, ◌==◌, refl, ap, Bool-cases,
}
use lltrisc_v.Memory.{Memory, IsBytes, within, read_word, write_word, word_bytes}
use lltrisc_v.Memory.Copy.{
  copy_word, copy_words, copy_blocks, copy_bytes, rt_memcpy, Copied, IsAhead, Copied-join,
  copy_bytes-Copied, Copied-IsBytes,
}

-- The cell `i` of a word.
word_cell :
    (m : Memory) (dst src a i : ℕ)
    → i < 4
    → (dst + i == a) ≡ true
    → m (src + i) ≡ (if within dst 4 a then m (src + (a - dst)) else m a)
word_cell m dst src a i h e =
    let place : src + (a - dst) ≡ src + i = ground (arith, e) in ground (arith, e, ap m place)

copy_word-Copied : (m : Memory) (dst src : ℕ) → IsBytes m → Copied m dst src 4 (copy_word m dst src)
unfolding copy_word write_word read_word
copy_word-Copied m dst src h a =
    let (p, q, r, s) =
      word_bytes (read_word m src) (m src) (m (src + 1)) (m (src + 2)) (m (src + 3)) (h src)
        (h (src + 1)) (h (src + 2)) (h (src + 3)) refl in
    let start : src ≡ src + 0 = omega arith in
    elim (Bool-cases (dst + 3 == a)) [
      | inl e3 ↦ rw e3 (s ∙ word_cell m dst src a 3 (omega arith) e3)
      | inr n3 ↦ elim (Bool-cases (dst + 2 == a)) [
        | inl e2 ↦ rw n3 (rw e2 (r ∙ word_cell m dst src a 2 (omega arith) e2))
        | inr n2 ↦ elim (Bool-cases (dst + 1 == a)) [
          | inl e1 ↦ rw n3 (rw n2 (rw e1 (q ∙ word_cell m dst src a 1 (omega arith) e1)))
          | inr n1 ↦ elim (Bool-cases (dst == a)) [
            | inl e0 ↦ rw n3 (
                rw n2 (
                  rw n1 (
                    rw e0 (
                      p
                      ∙ ap m start
                      ∙ word_cell m dst src a 0 (omega arith) (ground (arith, e0))))))
            | inr n0 ↦ rw n3 (rw n2 (rw n1 (rw n0 (ground (arith, n0, n1, n2, n3)))))
          ]
        ]
      ]
    ]

-- What a loop over blocks of `unit` bytes leaves: it copies what it has passed, and less than a block
-- is left.
abbrev Carried : Memory → (dst src len unit : ℕ) → Memory × ℕ × ℕ × ℕ → Type 0
Carried m dst src len unit (m', dst', src', left) =
    Copied m dst src (len - left) m'
    × (dst' ≡ dst + (len - left))
    × (src' ≡ src + (len - left))
    × (left ≤ len)
    × (left < unit)

Carried-stop :
    (m : Memory) (dst src len unit : ℕ) → len < unit → Carried m dst src len unit (m, dst, src, len)
Carried-stop m dst src len unit h = ((λ a. ground arith), omega arith, omega arith, omega arith, h)

Carried-step :
    (m m1 : Memory) (dst src len block unit : ℕ) (end : Memory × ℕ × ℕ × ℕ)
    → block ≤ len
    → IsAhead dst src len
    → Copied m dst src block m1
    → Carried m1 (dst + block) (src + block) (len - block) unit end
    → Carried m dst src len unit end
Carried-step m m1 dst src len block unit (m', dst', src', left) h ahead f (g, d, s, l, u) =
    let whole : block + (len - block - left) ≡ len - left = omega (arith, h, l) in
    let joined =
      Copied-join m m1 m' dst src block (len - block - left) (ground (arith, ahead, whole)) f g in
    (
      (λ a. joined a ∙ ap (λ n. if within dst n a then m (src + (a - dst)) else m a) whole),
      omega (arith, d, h, l),
      omega (arith, s, h, l),
      omega (arith, l),
      u,
    )

Carried-if :
    (m : Memory) (dst src len unit : ℕ) (b : Bool) (x y : Memory × ℕ × ℕ × ℕ)
    → (b ≡ true → Carried m dst src len unit x)
    → (b ≡ false → Carried m dst src len unit y)
    → Carried m dst src len unit (if b then x else y)
Carried-if m dst src len unit true x y f g = f refl
Carried-if m dst src len unit false x y f g = g refl

copy_words-Carried :
    (fuel : ℕ) (m : Memory) (dst src len : ℕ)
    → IsBytes m
    → IsAhead dst src len
    → len ≤ fuel
    → Carried m dst src len 4 (copy_words fuel m dst src len)
unfolding copy_words
copy_words-Carried zero m dst src len h ahead k = Carried-stop m dst src len 4 (omega (arith, k))
copy_words-Carried (suc fuel) m dst src len h ahead k =
    let m1 = copy_word m dst src in
    let word = copy_word-Copied m dst src h in
    let end = copy_words fuel m1 (dst + 4) (src + 4) (len - 4) in
    Carried-if m dst src len 4 (leb 4 len) end (m, dst, src, len)
      (λ e. Carried-step m m1 dst src len 4 4 end (ground (arith, e)) ahead word (
        copy_words-Carried fuel m1 (dst + 4) (src + 4) (len - 4)
          (Copied-IsBytes m m1 dst src 4 word h) (ground (arith, e, ahead)) (ground (arith, e))))
      (λ e. Carried-stop m dst src len 4 (ground (arith, e)))

-- Four words, one after the other.
four_words : Memory → (dst src : ℕ) → Memory
four_words m dst src =
    copy_word (copy_word (copy_word (copy_word m dst src) (dst + 4) (src + 4)) (dst + 8) (src + 8))
      (dst + 12) (src + 12)

four_words-Copied :
    (m : Memory) (dst src : ℕ)
    → IsBytes m
    → IsAhead dst src 16
    → Copied m dst src 16 (four_words m dst src)
unfolding four_words
four_words-Copied m dst src h ahead =
    let m1 = copy_word m dst src in
    let m2 = copy_word m1 (dst + 4) (src + 4) in
    let m3 = copy_word m2 (dst + 8) (src + 8) in
    let m4 = copy_word m3 (dst + 12) (src + 12) in
    let one = copy_word-Copied m dst src h in
    let h1 = Copied-IsBytes m m1 dst src 4 one h in
    let two =
      Copied-join m m1 m2 dst src 4 4 (ground (arith, ahead)) one
        (copy_word-Copied m1 (dst + 4) (src + 4) h1) in
    let h2 = Copied-IsBytes m m2 dst src 8 two h in
    let three =
      Copied-join m m2 m3 dst src 8 4 (ground (arith, ahead)) two
        (copy_word-Copied m2 (dst + 8) (src + 8) h2) in
    let h3 = Copied-IsBytes m m3 dst src 12 three h in
    Copied-join m m3 m4 dst src 12 4 ahead three (copy_word-Copied m3 (dst + 12) (src + 12) h3)

copy_blocks-Carried :
    (fuel : ℕ) (m : Memory) (dst src len : ℕ)
    → IsBytes m
    → IsAhead dst src len
    → len ≤ fuel
    → Carried m dst src len 16 (copy_blocks fuel m dst src len)
unfolding copy_blocks four_words
copy_blocks-Carried zero m dst src len h ahead k = Carried-stop m dst src len 16 (omega (arith, k))
copy_blocks-Carried (suc fuel) m dst src len h ahead k =
    let m1 = four_words m dst src in
    let end = copy_blocks fuel m1 (dst + 16) (src + 16) (len - 16) in
    Carried-if m dst src len 16 (leb 16 len) end (m, dst, src, len)
      (λ e.
        let words = four_words-Copied m dst src h (ground (arith, e, ahead)) in
        Carried-step m m1 dst src len 16 16 end (ground (arith, e)) ahead words (
          copy_blocks-Carried fuel m1 (dst + 16) (src + 16) (len - 16)
            (Copied-IsBytes m m1 dst src 16 words h) (ground (arith, e, ahead))
            (ground (arith, e))))
      (λ e. Carried-stop m dst src len 16 (ground (arith, e)))

-- What is left after a loop, in the hands of the next.
Copied-rest :
    (m m1 m2 : Memory) (dst src len unit dst' src' left : ℕ)
    → IsAhead dst src len
    → Carried m dst src len unit (m1, dst', src', left)
    → Copied m1 dst' src' left m2
    → Copied m dst src len m2
Copied-rest m m1 m2 dst src len unit dst' src' left ahead (f, d, s, l, u) g =
    let whole : len - left + left ≡ len = omega (arith, l) in
    let joined =
      Copied-join m m1 m2 dst src (len - left) left (ground (arith, ahead, whole)) f (moved d s) in
    λ a. joined a ∙ ap (λ n. if within dst n a then m (src + (a - dst)) else m a) whole
  where
    moved :
        (dst' ≡ dst + (len - left))
        → (src' ≡ src + (len - left))
        → Copied m1 (dst + (len - left)) (src + (len - left)) left m2
    moved d s = rw d at (rw s at g)

-- rt_memcpy, which copies aligned areas by words, does what a copy byte by byte would where the target
-- does not start inside the source: the target has the bytes the source held, and all else is as it was.
pub rt_memcpy-Copied :
    (m : Memory) (dst src count : ℕ)
    → IsBytes m
    → IsAhead dst src count
    → Copied m dst src count (rt_memcpy m dst src count)
unfolding rt_memcpy
rt_memcpy-Copied m dst src count h ahead =
    let b = copy_blocks count m dst src count in
    let w = copy_words b.3 b.0 b.1 b.2 b.3 in
    let bytes = copy_bytes w.0 w.1 w.2 w.3 in
    let carried = copy_blocks-Carried count m dst src count h ahead (omega arith) in
    let still : IsAhead b.1 b.2 b.3 = ground (arith, carried.1, carried.2, carried.3, ahead) in
    let bytes_left = Copied-IsBytes m b.0 dst src (count - b.3) carried.0 h in
    let words = copy_words-Carried b.3 b.0 b.1 b.2 b.3 bytes_left still (omega arith) in
    let end : IsAhead w.1 w.2 w.3 = ground (arith, words.1, words.2, words.3, still) in
    let rest =
      Copied-rest b.0 w.0 bytes b.1 b.2 b.3 4 w.1 w.2 w.3 still words
        (copy_bytes-Copied w.0 w.1 w.2 w.3 end) in
    Copied-if m dst src count (not (ltb count 16) && (dst % 4 == 0 && src % 4 == 0)) bytes
      (copy_bytes m dst src count)
      (Copied-rest m b.0 bytes dst src count 16 b.1 b.2 b.3 ahead carried rest)
      (copy_bytes-Copied m dst src count ahead)
  where
    Copied-if :
        (m : Memory) (dst src n : ℕ) (b : Bool) (x y : Memory)
        → Copied m dst src n x
        → Copied m dst src n y
        → Copied m dst src n (if b then x else y)
    Copied-if m dst src n true x y f g = f
    Copied-if m dst src n false x y f g = g
