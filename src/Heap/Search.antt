-- ===== src/Heap/Search.antt =====
-- The search of `rt_malloc` and the update of its lowest free block, os/rt-thread-nano/src/mem.c.
use lltrisc_v.Prelude.{
  ℕ, zero, suc, ◌+◌, ◌-◌, ◌*◌, ◌^◌, ◌≤◌, ◌<◌, ◌≡◌, ◌∙◌, ◌⊎◌, inl, inr, refl, sym, ap, subst, arith,
  Bool, true, false, not, ◌&&◌, ◌||◌, Option, none, some, List, [], ◌∷◌, ◌++◌, if◌then◌else◌, ltb,
  leb, Bool-cases, length,
}
use lltrisc_v.Heap.{Heap, heap_end, header, min_size, find_fit, next_free, size_sub}
use lltrisc_v.Heap.Chain.{Segment, IsRun, IsRun-le, lowest}

-- A free block that starts below `limit` and has room for `size` bytes.
abbrev pub fits_in : (limit size : ℕ) → Segment → Bool
fits_in limit size s = not s.taken && (ltb s.start limit && leb (s.start + header + size) s.stop)

abbrev pub any_fits : (limit size : ℕ) → List Segment → Bool
any_fits limit size [] = false
any_fits limit size (s ∷ ss) = fits_in limit size s || any_fits limit size ss

-- A run has no more blocks than bytes.
pub run_length :
    (h : Heap) (l : List Segment) (p q p' q' : ℕ) → IsRun h l p q p' q' → p + 13 * length l ≤ p'
run_length h [] p q p' q' (e, f) = omega (arith, e)
run_length h (s ∷ ss) p q p' q' (a, b, c, d, room, rest) =
    omega (arith, room, run_length h ss s.stop p p' q' rest)

-- What a search among the blocks gives.
abbrev pub IsFound : (limit size : ℕ) → List Segment → Option (Option ℕ) → Type 0
IsFound limit size l r =
    ((r ≡ some none) × (any_fits limit size l ≡ false))
    ⊎ ((pre : List Segment) × (s : Segment) × (post : List Segment) × (l ≡ pre ++ s ∷ post)
        × (r ≡ some (some s.start))
        × (fits_in limit size s ≡ true)
        × (any_fits limit size pre ≡ false))

later-IsFound :
    (limit size : ℕ) (s : Segment) (l : List Segment) (r : Option (Option ℕ))
    → fits_in limit size s ≡ false
    → IsFound limit size l r
    → IsFound limit size (s ∷ l) r
later-IsFound limit size s l r off (inl (e, f)) = inl (e, ground (arith, off, f))
later-IsFound limit size s l r off (inr (pre, t, post, whole, e, fit, before)) =
    inr (s ∷ pre, t, post, ap (λ x. s ∷ x) whole, e, fit, ground (arith, off, before))

none_above :
    (h : Heap) (limit size : ℕ) (l : List Segment) (p q p' q' : ℕ)
    → IsRun h l p q p' q'
    → limit ≤ p
    → any_fits limit size l ≡ false
none_above h limit size [] p q p' q' k le = refl
none_above h limit size (s ∷ ss) p q p' q' (a, b, c, d, room, rest) le =
    ground (arith, a, le, none_above h limit size ss s.stop p p' q' rest (omega (arith, le, room)))

pub find_fit-IsFound :
    (fuel : ℕ) (h : Heap) (size : ℕ) (l : List Segment) (p q last : ℕ)
    → IsRun h l p q (heap_end h) last
    → size ≤ h.mem_size_aligned
    → heap_end h < 2 ^ 32
    → length l < fuel
    → min_size ≤ size
    → IsFound (h.mem_size_aligned - size) size l (find_fit fuel h size p)
unfolding find_fit
find_fit-IsFound zero h size l p q last k small wide enough big = absurd (omega (arith, enough))
find_fit-IsFound (suc fuel) h size [] p q last (e, f) small wide enough big =
    inl (ground (arith, e, small, wide, big), refl)
find_fit-IsFound (suc fuel) h size (s ∷ ss) p q last (a, b, c, d, room, rest) small wide enough
      big =
    let further = IsRun-le h ss s.stop p (heap_end h) last rest in
    let limit : size_sub h.mem_size_aligned size ≡ h.mem_size_aligned - size =
      omega (arith, small, wide) in
    let space : size_sub (h.next p) (p + header) ≡ s.stop - (p + header) =
      omega (arith, c, room, wide, further) in
    let later =
      find_fit-IsFound fuel h size ss s.stop p last rest small wide (omega (arith, enough)) big in
    elim (Bool-cases (fits_in (h.mem_size_aligned - size) size s)) [
      | inl e ↦ inr ([], s, ss, refl, ground (arith, limit, space, a, b, e, big), e, refl)
      | inr e ↦ elim (Bool-cases (ltb p (h.mem_size_aligned - size))) [
        | inl below ↦
            let step : find_fit (suc fuel) h size p ≡ find_fit fuel h size s.stop =
              ground (arith, limit, space, a, b, e, below, ap (find_fit fuel h size) c) in
            subst (IsFound (h.mem_size_aligned - size) size (s ∷ ss)) (sym step) (
              later-IsFound (h.mem_size_aligned - size) size s ss (find_fit fuel h size s.stop) e
                later)
        | inr above ↦ inl (
          ground (arith, limit, above),
          none_above h (h.mem_size_aligned - size) size (s ∷ ss) p q (heap_end h) last
              (a, b, c, d, room, rest) (ground (arith, above)),
        )
      ]
    ]

-- From a block of a run the search for the lowest free block ends at the first that is free.
pub next_free-lowest :
    (fuel : ℕ) (h : Heap) (l : List Segment) (p q last : ℕ)
    → IsRun h l p q (heap_end h) last
    → length l ≤ fuel
    → next_free fuel h p ≡ lowest l (heap_end h)
unfolding next_free
next_free-lowest zero h [] p q last (e, f) enough = e
next_free-lowest zero h (s ∷ ss) p q last k enough = absurd (omega (arith, enough))
next_free-lowest (suc fuel) h [] p q last (e, f) enough = ground (arith, e)
next_free-lowest (suc fuel) h (s ∷ ss) p q last (a, b, c, d, room, rest) enough =
    let further = IsRun-le h ss s.stop p (heap_end h) last rest in
    let later = next_free-lowest fuel h ss s.stop p last rest (omega (arith, enough)) in
    ground (arith, a, b, ap (next_free fuel h) c, room, further, later)

-- The blocks before the lowest free one are all in use.
pub lowest_split :
    (h : Heap) (l : List Segment) (p q end last : ℕ)
    → IsRun h l p q end last
    → (pre : List Segment) × (post : List Segment) × (q1 : ℕ) × (l ≡ pre ++ post)
      × IsRun h post (lowest l end) q1 end last
      × ((limit size : ℕ) → any_fits limit size pre ≡ false)
lowest_split h [] p q end last (e, f) = ([], [], q, refl, (refl, f), λ limit size. refl)
lowest_split h (s ∷ ss) p q end last (a, b, c, d, room, rest) =
    let (pre, post, q1, whole, right, none_fits) = lowest_split h ss s.stop p end last rest in
    elim (Bool-cases s.taken) [
      | inl e ↦
          let on : lowest (s ∷ ss) end ≡ lowest ss end =
            ap (λ b. if b then lowest ss end else s.start) e in
          (
            s ∷ pre,
            post,
            q1,
            ap (λ x. s ∷ x) whole,
            subst (λ x. IsRun h post x q1 end last) (sym on) right,
            λ limit size. ground (arith, e, none_fits limit size),
          )
      | inr e ↦
          let here : lowest (s ∷ ss) end ≡ p =
            ap (λ b. if b then lowest ss end else s.start) e ∙ a in
          (
            [],
            s ∷ ss,
            q,
            refl,
            subst (λ x. IsRun h (s ∷ ss) x q end last) (sym here) (a, b, c, d, room, rest),
            λ limit size. refl,
          )
    ]
