-- ===== src/Heap/Plug.antt =====
-- `plug_holes`, os/rt-thread-nano/src/mem.c: a hole is made one with the holes beside it.
use lltrisc_v.Prelude.{
  ℕ, ◌+◌, ◌≤◌, ◌<◌, ◌≡◌, ◌∙◌, ◌⊎◌, inl, inr, refl, sym, ap, subst, arith, Bool, true, false, List,
  [], ◌∷◌, ◌++◌, if◌then◌else◌, update, Bool-cases,
}
use lltrisc_v.Heap.{Heap, heap_end, header, plug_forward, plug_backward, plug_holes}
use lltrisc_v.Heap.Chain.{
  Segment, hole, IsRun, IsRun-le, IsRun-append, IsRun-split, IsRun-same, IsRun-after, lowest,
  lowest-append, lowest-bounds,
}

-- The headers, the end and the lowest free block fit the list of blocks.
pub record IsLaid (h : Heap) (blocks : List Segment) : Type 0 where
  pub last : ℕ
  pub run : IsRun h blocks 0 0 (heap_end h) last
  pub end_used : h.used (heap_end h) ≡ true
  pub low : h.lfree ≡ lowest blocks (heap_end h)

-- Two holes made one: the first leads past the second, and the block behind them back to the first.
abbrev join : (a c : ℕ) → Heap → Heap
join a c h = record h { next = update h.next a c; prev = update h.prev c a }

pub join-IsLaid :
    (h : Heap) (pre post : List Segment) (a b c : ℕ)
    → IsLaid h (pre ++ hole a b ∷ hole b c ∷ post)
    → IsLaid (join a c h) (pre ++ hole a c ∷ post)
join-IsLaid h pre post a b c i =
    let h1 = join a c h in
    let end = heap_end h in
    let (p1, q1, left, (at, u, n, v, room, (at2, u2, n2, v2, room2, right))) =
      IsRun-split h pre (hole a b ∷ hole b c ∷ post) 0 0 end i.last i.run in
    let further = IsRun-le h post c b end i.last right in
    let (last, after) =
      IsRun-after h h1 post c b end i.last a (λ x low high. ground (arith, low, room, room2))
        (λ x low high. ground (arith, low)) (λ inside. ground arith) right in
    let before =
      IsRun-same h h1 pre 0 0 p1 q1 (λ x low high. ground (arith, high, at, room, room2)) left in
    record {
      last = last;
      run = IsRun-append h1 pre (hole a c ∷ post) 0 0 p1 q1 end last before (
        at,
        u,
        ground (arith, at),
        ground (arith, v, room, room2),
        omega (arith, room, room2),
        subst (λ x. IsRun h1 post c x end last) at after,
      );
      end_used = i.end_used;
      low =
          i.low
          ∙ lowest-append pre (hole a b ∷ hole b c ∷ post) end
          ∙ sym (lowest-append pre (hole a c ∷ post) end);
    }

-- A free block between `pre` and `post`, with the hole that follows it taken in.
abbrev pub absorb : (x y : ℕ) → List Segment → List Segment
absorb x y [] = hole x y ∷ []
absorb x y (t ∷ ts) = if t.taken then hole x y ∷ t ∷ ts else hole x t.stop ∷ ts

pub lfree_first :
    (h : Heap) (pre post : List Segment) (x y : ℕ) → IsLaid h (pre ++ hole x y ∷ post) → h.lfree ≤ x
lfree_first h pre post x y i =
    let end = heap_end h in
    let (p1, q1, left, (at, u, n, v, room, right)) =
      IsRun-split h pre (hole x y ∷ post) 0 0 end i.last i.run in
    let bounds = lowest-bounds h pre 0 0 p1 q1 x left (omega (arith, at)) in
    omega (arith, i.low ∙ lowest-append pre (hole x y ∷ post) end, bounds.1)

-- What the headers say at a hole.
pub hole_at :
    (h : Heap) (pre post : List Segment) (x y : ℕ)
    → (i : IsLaid h (pre ++ hole x y ∷ post))
    → (q : ℕ) × (h.next x ≡ y)
      × (x + header < y)
      × IsRun h pre 0 0 x q
      × (h.prev x ≡ q)
      × IsRun h post y x (heap_end h) i.last
hole_at h pre post x y i =
    let (p1, q1, left, (at, u, n, v, room, right)) =
      IsRun-split h pre (hole x y ∷ post) 0 0 (heap_end h) i.last i.run in
    (
      q1,
      rw (← at) at n,
      omega (arith, room, at),
      (rw (← at) at left),
      rw (← at) at v,
      (rw (← at) at right),
    )

pub hole_path : (t : Segment) (y z : ℕ) → t.start ≡ y → t.stop ≡ z → t.taken ≡ false → t ≡ hole y z
hole_path t y z e f g = λ i. record { start = e i; stop = f i; taken = g i }

plug_forward-IsLaid :
    (h : Heap) (pre post : List Segment) (x y : ℕ)
    → IsLaid h (pre ++ hole x y ∷ post)
    → IsLaid (plug_forward x h) (pre ++ absorb x y post)
unfolding plug_forward
plug_forward-IsLaid h pre [] x y i =
    let (q, n, room, left, v, (e, f)) = hole_at h pre [] x y i in
    let last : plug_forward x h ≡ h = ground (arith, n, e, room, i.end_used, ap h.used (n ∙ e)) in
    rw last i
plug_forward-IsLaid h pre (t ∷ ts) x y i =
    let (q, n, room, left, v, (at, u, n2, v2, room2, right)) = hole_at h pre (t ∷ ts) x y i in
    let first = lfree_first h pre (t ∷ ts) x y i in
    let further = IsRun-le h ts t.stop y (heap_end h) i.last right in
    elim (Bool-cases t.taken) [
      | inl e ↦
          let kept_so : plug_forward x h ≡ h = ground (arith, ap h.used n, u, e) in
          subst (λ l. IsLaid (plug_forward x h) (pre ++ l)) (sym (took true e)) (rw kept_so i)
      | inr e ↦
          let joined : plug_forward x h ≡ join x t.stop h =
            ground (arith, n, n2, ap h.used n, ap h.next n, u, e, room, room2, further, first) in
          subst (λ l. IsLaid (plug_forward x h) (pre ++ l)) (sym (took false e))
            (rw joined (
              join-IsLaid h pre ts x y t.stop (
                subst (λ s. IsLaid h (pre ++ hole x y ∷ s ∷ ts)) (hole_path t y t.stop at refl e)
                  i)))
    ]
  where
    took :
        (b : Bool)
        → t.taken ≡ b
        → absorb x y (t ∷ ts) ≡ (if b then hole x y ∷ t ∷ ts else hole x t.stop ∷ ts)
    took b e = ap (λ b. if b then hole x y ∷ t ∷ ts else hole x t.stop ∷ ts) e

-- `l`, which begins with a free block, behind `pre`; a free block at the end of `pre` takes the first in.
abbrev pub joined : List Segment → List Segment → List Segment
joined [] l = l
joined (t ∷ []) [] = t ∷ []
joined (t ∷ []) (g ∷ l) = if t.taken then t ∷ g ∷ l else hole t.start g.stop ∷ l
joined (t ∷ u ∷ us) l = t ∷ joined (u ∷ us) l

pub joined-snoc :
    (pre : List Segment) (t g : Segment) (l : List Segment)
    → joined (pre ++ t ∷ []) (g ∷ l)
      ≡ pre ++ (if t.taken then t ∷ g ∷ l else hole t.start g.stop ∷ l)
joined-snoc [] t g l = refl
joined-snoc (a ∷ []) t g l = refl
joined-snoc (a ∷ b ∷ pre) t g l = ap (λ r. a ∷ r) (joined-snoc (b ∷ pre) t g l)

pub snoc_cases :
    (l : List Segment) → (l ≡ []) ⊎ ((pre : List Segment) × (t : Segment) × (l ≡ pre ++ t ∷ []))
snoc_cases [] = inl refl
snoc_cases (a ∷ []) = inr ([], a, refl)
snoc_cases (a ∷ b ∷ l) = elim (snoc_cases (b ∷ l)) [
  | inl e ↦ inr ([], a, ap (λ r. a ∷ r) e)
  | inr (pre, t, e) ↦ inr (a ∷ pre, t, ap (λ r. a ∷ r) e)
]

pub snoc_append :
    (pre : List Segment) (t : Segment) (l : List Segment) → (pre ++ t ∷ []) ++ l ≡ pre ++ t ∷ l
snoc_append [] t l = refl
snoc_append (a ∷ pre) t l = ap (λ r. a ∷ r) (snoc_append pre t l)

plug_backward-first :
    (h : Heap) (post : List Segment) (x y : ℕ)
    → IsLaid h (hole x y ∷ post)
    → IsLaid (plug_backward x h) (hole x y ∷ post)
unfolding plug_backward
plug_backward-first h post x y i =
    let (q, n, room, (at, f), v, right) = hole_at h [] post x y i in
    let alone : plug_backward x h ≡ h = ground (arith, at, v, f) in rw alone i

plug_backward-IsLaid :
    (h : Heap) (pre post : List Segment) (t : Segment) (x y : ℕ)
    → IsLaid h (pre ++ t ∷ hole x y ∷ post)
    → IsLaid
        (plug_backward x h)
        (pre ++ (if t.taken then t ∷ hole x y ∷ post else hole t.start y ∷ post))
unfolding plug_backward
plug_backward-IsLaid h pre post t x y i =
    let (p1, q1, left, (at, u, n, v, room, (at2, u2, n2, v2, room2, right))) =
      IsRun-split h pre (t ∷ hole x y ∷ post) 0 0 (heap_end h) i.last i.run in
    let back : h.prev x ≡ p1 = ap h.prev at2 ∙ v2 in
    let back_here : h.prev x ≡ t.start = back ∙ sym at in
    let forth : h.next x ≡ y = ap h.next at2 ∙ n2 in
    elim (Bool-cases t.taken) [
      | inl e ↦
          let kept_so : plug_backward x h ≡ h = ground (arith, ap h.used back, u, e) in
          subst (λ l. IsLaid (plug_backward x h) (pre ++ l)) (sym (took true e)) (rw kept_so i)
      | inr e ↦
          let whole = hole_path t t.start t.stop refl refl e in
          let first =
            lfree_first h pre (hole x y ∷ post) t.start t.stop
              (subst (λ s. IsLaid h (pre ++ s ∷ hole x y ∷ post)) whole i) in
          let merge : plug_backward x h ≡ join t.start y h = ground (
            arith,
            back_here,
            forth,
            ap h.used back_here,
            ap h.used at ∙ u ∙ e,
            first,
            room,
            at,
            at2,
          ) in
          subst (λ l. IsLaid (plug_backward x h) (pre ++ l)) (sym (took false e))
            (rw merge (
              join-IsLaid h pre post t.start x y (
                subst (λ s. IsLaid h (pre ++ s ∷ hole x y ∷ post))
                  (hole_path t t.start x refl (sym at2) e) i)))
    ]
  where
    took :
        (b : Bool)
        → t.taken ≡ b
        → (if t.taken then t ∷ hole x y ∷ post else hole t.start y ∷ post)
          ≡ (if b then t ∷ hole x y ∷ post else hole t.start y ∷ post)
    took b e = ap (λ b. if b then t ∷ hole x y ∷ post else hole t.start y ∷ post) e

-- The hole at `x`, made one with its neighbours.
plug_backward-joined :
    (h : Heap) (pre post : List Segment) (x y : ℕ)
    → IsLaid h (pre ++ hole x y ∷ post)
    → IsLaid (plug_backward x h) (joined pre (hole x y ∷ post))
plug_backward-joined h pre post x y i = elim (snoc_cases pre) [
  | inl e ↦
      subst (λ l. IsLaid (plug_backward x h) (joined l (hole x y ∷ post))) (sym e)
        (plug_backward-first h post x y (subst (λ l. IsLaid h (l ++ hole x y ∷ post)) e i))
  | inr (before, t, e) ↦
      let whole = ap (λ l. joined l (hole x y ∷ post)) e ∙ joined-snoc before t (hole x y) post in
      let apart = ap (λ l. l ++ hole x y ∷ post) e ∙ snoc_append before t (hole x y ∷ post) in
      subst (IsLaid (plug_backward x h)) (sym whole)
        (plug_backward-IsLaid h before post t x y (subst (IsLaid h) apart i))
]

pub absorb-hole :
    (x y : ℕ) (post : List Segment)
    → (z : ℕ) × (rest : List Segment) × (absorb x y post ≡ hole x z ∷ rest)
absorb-hole x y [] = (y, [], refl)
absorb-hole x y (t ∷ ts) = elim (Bool-cases t.taken) [
  | inl e ↦ (y, t ∷ ts, ap (λ b. if b then hole x y ∷ t ∷ ts else hole x t.stop ∷ ts) e)
  | inr e ↦ (t.stop, ts, ap (λ b. if b then hole x y ∷ t ∷ ts else hole x t.stop ∷ ts) e)
]

pub plug_holes-IsLaid :
    (h : Heap) (pre post : List Segment) (x y : ℕ)
    → IsLaid h (pre ++ hole x y ∷ post)
    → IsLaid (plug_holes x h) (joined pre (absorb x y post))
unfolding plug_holes
plug_holes-IsLaid h pre post x y i =
    let (z, rest, e) = absorb-hole x y post in
    let forward = plug_forward-IsLaid h pre post x y i in
    subst (λ l. IsLaid (plug_backward x (plug_forward x h)) (joined pre l)) (sym e)
      (plug_backward-joined (plug_forward x h) pre rest x z
        (subst (λ l. IsLaid (plug_forward x h) (pre ++ l)) e forward))

pub plug_holes-place :
    (x : ℕ) (h : Heap)
    → ((plug_holes x h).heap_ptr ≡ h.heap_ptr)
      × ((plug_holes x h).mem_size_aligned ≡ h.mem_size_aligned)
unfolding plug_holes plug_backward plug_forward
plug_holes-place x h = ground arith
