-- ===== src/Heap/Chain.antt =====
-- The chain of blocks of a heap, os/rt-thread-nano/src/mem.c: what `next`, `prev` and `used` say of it.
use lltrisc_v.Prelude.{
  ℕ, ◌+◌, ◌^◌, ◌≤◌, ◌<◌, ◌≡◌, ◌∙◌, ◌⊎◌, inr, refl, arith, Bool, true, false, ◌&&◌, ◌||◌, List, [],
  ◌∷◌, ◌++◌, if◌then◌else◌,
}
use lltrisc_v.Heap.{Heap, heap_end, header, min_size}

-- A block: its header stands at `start`, its data ends at `stop`.
pub record Segment : Type 0 where
  pub start : ℕ
  pub stop : ℕ
  pub taken : Bool

abbrev pub hole : ℕ → ℕ → Segment
hole x y = record { start = x; stop = y; taken = false }

abbrev pub kept : ℕ → ℕ → Segment
kept x y = record { start = x; stop = y; taken = true }

-- The headers from offset `p` on, whose predecessor is `q`, are those of the blocks; they lead to `p'`, and
-- the last of them is `q'`.
abbrev pub IsRun : Heap → List Segment → (p q p' q' : ℕ) → Type 0
IsRun h [] p q p' q' = (p ≡ p') × (q ≡ q')
IsRun h (s ∷ ss) p q p' q' =
    (s.start ≡ p)
    × (h.used p ≡ s.taken)
    × (h.next p ≡ s.stop)
    × (h.prev p ≡ q)
    × (p + header < s.stop)
    × IsRun h ss s.stop p p' q'

pub IsRun-le : (h : Heap) (l : List Segment) (p q p' q' : ℕ) → IsRun h l p q p' q' → p ≤ p'
IsRun-le h [] p q p' q' (e, f) = omega (arith, e)
IsRun-le h (s ∷ ss) p q p' q' (a, b, c, d, room, rest) =
    omega (arith, room, IsRun-le h ss s.stop p p' q' rest)

pub IsRun-append :
    (h : Heap) (l r : List Segment) (p q p1 q1 p' q' : ℕ)
    → IsRun h l p q p1 q1
    → IsRun h r p1 q1 p' q'
    → IsRun h (l ++ r) p q p' q'
IsRun-append h [] r p q p1 q1 p' q' (e, f) k = rw e (rw f k)
IsRun-append h (s ∷ ss) r p q p1 q1 p' q' (a, b, c, d, room, rest) k =
    (a, b, c, d, room, IsRun-append h ss r s.stop p p1 q1 p' q' rest k)

pub IsRun-split :
    (h : Heap) (l r : List Segment) (p q p' q' : ℕ)
    → IsRun h (l ++ r) p q p' q'
    → (p1 : ℕ) × (q1 : ℕ) × IsRun h l p q p1 q1 × IsRun h r p1 q1 p' q'
IsRun-split h [] r p q p' q' k = (p, q, (refl, refl), k)
IsRun-split h (s ∷ ss) r p q p' q' (a, b, c, d, room, rest) =
    let (p1, q1, left, right) = IsRun-split h ss r s.stop p p' q' rest in
    (p1, q1, (a, b, c, d, room, left), right)

-- Two heaps have the same headers from `p` up to `p'`.
abbrev pub IsSame : Heap → Heap → (p p' : ℕ) → Type 0
IsSame h h' p p' =
    (a : ℕ)
    → p ≤ a
    → a < p'
    → (h'.used a ≡ h.used a) × (h'.next a ≡ h.next a) × (h'.prev a ≡ h.prev a)

pub IsRun-same :
    (h h' : Heap) (l : List Segment) (p q p' q' : ℕ)
    → IsSame h h' p p'
    → IsRun h l p q p' q'
    → IsRun h' l p q p' q'
IsRun-same h h' [] p q p' q' same k = k
IsRun-same h h' (s ∷ ss) p q p' q' same (a, b, c, d, room, rest) =
    let further = IsRun-le h ss s.stop p p' q' rest in
    let (u, n, v) = same p (omega arith) (omega (arith, room, further)) in
    (
      a,
      u ∙ b,
      n ∙ c,
      v ∙ d,
      room,
      IsRun-same h h' ss s.stop p p' q' (λ x low high. same x (omega (arith, low, room)) high) rest,
    )

-- The first block gets another predecessor.
pub IsRun-after :
    (h h' : Heap) (l : List Segment) (p q p' q' r : ℕ)
    → ((a : ℕ) → p ≤ a → a < p' → (h'.used a ≡ h.used a) × (h'.next a ≡ h.next a))
    → ((a : ℕ) → p < a → a < p' → h'.prev a ≡ h.prev a)
    → (p < p' → h'.prev p ≡ r)
    → IsRun h l p q p' q'
    → (end : ℕ) × IsRun h' l p r p' end
IsRun-after h h' [] p q p' q' r same prevs first (e, f) = (r, (e, refl))
IsRun-after h h' (s ∷ ss) p q p' q' r same prevs first (a, b, c, d, room, rest) =
    let further = IsRun-le h ss s.stop p p' q' rest in
    let (u, n) = same p (omega arith) (omega (arith, room, further)) in
    (
      q',
      (
        a,
        u ∙ b,
        n ∙ c,
        first (omega (arith, room, further)),
        room,
        IsRun-same h h' ss s.stop p p' q'
            (λ x low high.
              let (v, w) = same x (omega (arith, low, room)) high in
              (v, w, prevs x (omega (arith, low, room)) high))
            rest,
      ),
    )

-- The start of the first block that is free, or `end`.
abbrev pub lowest : List Segment → ℕ → ℕ
lowest [] end = end
lowest (s ∷ ss) end = if s.taken then lowest ss end else s.start

pub lowest-append : (l r : List Segment) (end : ℕ) → lowest (l ++ r) end ≡ lowest l (lowest r end)
lowest-append [] r end = refl
lowest-append (s ∷ ss) r end = ground (arith, lowest-append ss r end)

-- Which of the blocks of a run is the first free one.
pub lowest-bounds :
    (h : Heap) (l : List Segment) (p q p' q' end : ℕ)
    → IsRun h l p q p' q'
    → p' ≤ end
    → (p ≤ lowest l end) × (lowest l end ≤ end) × ((lowest l end < p') ⊎ (lowest l end ≡ end))
lowest-bounds h [] p q p' q' end (e, f) k = (omega (arith, e, k), omega arith, inr refl)
lowest-bounds h (s ∷ ss) p q p' q' end (a, b, c, d, room, rest) k =
    let further = IsRun-le h ss s.stop p p' q' rest in
    let (low, high, either) = lowest-bounds h ss s.stop p p' q' end rest k in
    ground (arith, a, room, further, low, high, either, k)

-- Only where no block is free does the end matter.
pub lowest-swap :
    (l : List Segment) (a b : ℕ) → (lowest l a ≡ lowest l b) ⊎ ((lowest l a ≡ a) × (lowest l b ≡ b))
lowest-swap [] a b = inr (refl, refl)
lowest-swap (s ∷ ss) a b = ground (arith, lowest-swap ss a b)

-- No two blocks beside each other are free.
abbrev pub merged : List Segment → Bool
merged [] = true
merged (s ∷ []) = true
merged (s ∷ t ∷ ts) = (s.taken || t.taken) && merged (t ∷ ts)

-- A heap that holds the blocks, in the order of their addresses and without gaps.
pub record IsHeap (h : Heap) (blocks : List Segment) : Type 0 where
  pub last : ℕ
  pub run : IsRun h blocks 0 0 (heap_end h) last
  pub end_used : h.used (heap_end h) ≡ true
  pub apart : merged blocks ≡ true
  pub low : h.lfree ≡ lowest blocks (heap_end h)
  pub fits : h.heap_ptr + heap_end h < 2 ^ 32
  pub big_enough : min_size ≤ h.mem_size_aligned
  pub above : 0 < h.heap_ptr
