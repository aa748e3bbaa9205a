-- ===== src/Memory/Strings/Order.antt =====
-- The comparisons of strings of os/rt-thread-nano/src/kservice.c.
use lltrisc_v.Prelude.{
  ℕ, zero, suc, ◌+◌, ◌%◌, ◌<◌, ◌≤◌, ◌≡◌, ◌≢◌, ◌∙◌, ◌⊎◌, inl, inr, refl, ap, arith, true, false, not,
  ◌||◌, some, ◌==◌, ℤ, pos, ◌⊖◌, is_zero, is_negative, Bool-cases, ==→eq,
}
use lltrisc_v.Memory.{Memory, IsBytes}
use lltrisc_v.Memory.Strings.{rt_strcmp, rt_strncmp, rt_strcasecmp, lower, narrow}
use lltrisc_v.Memory.Strings.Compare.{
  Along, First, Along-cons, First-here, First-later, IsString, IsString-tail,
}

-- The two bytes are the same, and no end of a string.
abbrev pub Live : ℕ → ℕ → Type 0
Live x y = (x ≡ y) × (x ≢ 0)

-- The bytes differ or both strings end, and the result is the difference of the bytes.
abbrev pub Ends : ℤ → ℕ → ℕ → Type 0
Ends res x y = ((x ≢ y) ⊎ (x ≡ 0)) × (res ≡ x ⊖ y)

ended : (x y : ℕ) → (x ≡ y → x ≢ 0 → ⊥) → (x ≢ y) ⊎ (x ≡ 0)
ended x y h = elim (Bool-cases (x == 0)) [
  | inl e ↦ inr (==→eq x 0 e)
  | inr e ↦ inl (λ same. h same (λ z. ground (arith, e, z)))
]

-- Given fuel for more than the bytes of the first string, rt_strcmp returns, and its result is the
-- difference of the bytes at the first place where the strings differ or end.
pub rt_strcmp-First :
    (fuel : ℕ) (m : Memory) (cs ct n : ℕ)
    → IsString m cs n
    → n < fuel
    → (res : ℤ) × (rt_strcmp fuel m cs ct ≡ some res) × First Live (Ends res) m cs ct (suc n)
unfolding rt_strcmp
rt_strcmp-First zero m cs ct n h k = absurd (omega (arith, k))
rt_strcmp-First (suc fuel) m cs ct zero h k =
    let start : cs ≡ cs + 0 = omega arith in
    let over : m cs ≡ 0 = ap m start ∙ h.1 in
    (
      m cs ⊖ m ct,
      ground (arith, over),
      First-here Live (Ends (m cs ⊖ m ct)) m cs ct 0 (inr over, refl),
    )
rt_strcmp-First (suc fuel) m cs ct (suc n) h k =
    let (nonzero, tail) = IsString-tail m cs n h in
    let (res, returns, first) =
      rt_strcmp-First fuel m (cs + 1) (ct + 1) n tail (omega (arith, k)) in
    elim (Bool-cases (m cs == m ct)) [
      | inl e ↦
          let same = ==→eq (m cs) (m ct) e in
          (
            res,
            ground (arith, e, nonzero, returns),
            First-later Live (Ends res) m cs ct (suc n) (same, nonzero) first,
          )
      | inr e ↦ (
        m cs ⊖ m ct,
        ground (arith, e),
        First-here Live (Ends (m cs ⊖ m ct)) m cs ct (suc n)
            (inl (λ same. ground (arith, e, same)), refl),
      )
    ]

-- rt_strcasecmp is rt_strcmp on the memory with the capital letters lowered, results and fuel alike.
pub rt_strcasecmp-rt_strcmp :
    (fuel : ℕ) (m : Memory) (a b : ℕ)
    → rt_strcasecmp fuel m a b ≡ rt_strcmp fuel (λ x. lower (m x % 256)) a b
unfolding rt_strcasecmp rt_strcmp
rt_strcasecmp-rt_strcmp zero m a b = refl
rt_strcasecmp-rt_strcmp (suc fuel) m a b =
    ground (arith, rt_strcasecmp-rt_strcmp fuel m (a + 1) (b + 1))

-- The bytes differ or both strings end, and the result is what a `signed char` keeps of the difference.
abbrev pub NarrowEnds : ℤ → ℕ → ℕ → Type 0
NarrowEnds res x y = ((x ≢ y) ⊎ (x ≡ 0)) × (res ≡ narrow x y)

narrow-zero : (x y : ℕ) → x < 256 → y < 256 → is_zero (narrow x y) ≡ (x == y)
unfolding narrow
narrow-zero x y h k = ground arith

-- rt_strncmp returns 0 and the first `n` bytes are the same with no zero byte among them, or there is a
-- first place before `n` where the strings differ or end, and the result is the difference of the bytes
-- there as a `signed char` keeps it.
pub rt_strncmp-cases :
    (m : Memory) (cs ct n : ℕ)
    → IsBytes m
    → (rt_strncmp m cs ct n ≡ pos 0) × Along Live m cs ct n
      ⊎ First Live (NarrowEnds (rt_strncmp m cs ct n)) m cs ct n
unfolding rt_strncmp
rt_strncmp-cases m cs ct zero h = inl (refl, λ i h. absurd (omega (arith, h)))
rt_strncmp-cases m cs ct (suc n) h =
    let zero_test = narrow-zero (m cs) (m ct) (h cs) (h ct) in
    elim (Bool-cases (not (is_zero (narrow (m cs) (m ct))) || m cs == 0)) [
      | inl e ↦ rw e (
          inr (
            First-here Live (NarrowEnds (narrow (m cs) (m ct))) m cs ct n (
              ended (m cs) (m ct) (λ same nonzero. ground (arith, e, zero_test, same, nonzero)),
              refl,
            )))
      | inr e ↦
          let live : Live (m cs) (m ct) =
            (ground (arith, e, zero_test), λ z. ground (arith, e, z)) in
          rw e (elim (rt_strncmp-cases m (cs + 1) (ct + 1) n h) [
            | inl (z, same) ↦ inl (z, Along-cons Live Live m cs ct n live same)
            | inr first ↦ inr (
                First-later Live (NarrowEnds (rt_strncmp m (cs + 1) (ct + 1) n)) m cs ct n live
                  first)
          ])
    ]

-- On text of 7 bits the `signed char` keeps the difference whole.
pub narrow-ascii : (x y : ℕ) → x < 128 → y < 128 → narrow x y ≡ x ⊖ y
unfolding narrow
narrow-ascii x y h k = ground arith

-- Where the first bytes differ by 128 or more, the first being the larger, rt_strncmp on one or more bytes
-- gives a negative result and rt_strcmp one that is not negative: the order that the two report differs.
pub rt_strncmp-rt_strcmp :
    (m : Memory) (cs ct n fuel : ℕ)
    → m cs < 256
    → m ct + 128 ≤ m cs
    → (is_negative (rt_strncmp m cs ct (suc n)) ≡ true)
      × ((r : ℤ) × (rt_strcmp (suc fuel) m cs ct ≡ some r) × (is_negative r ≡ false))
unfolding rt_strncmp rt_strcmp narrow
rt_strncmp-rt_strcmp m cs ct n fuel byte far =
    (ground (arith, byte, far), (m cs ⊖ m ct, ground (arith, far), ground (arith, far)))
