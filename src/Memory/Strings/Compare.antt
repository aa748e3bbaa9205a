-- ===== src/Memory/Strings/Compare.antt =====
-- Places in two areas of memory, and the comparison of areas `rt_memcmp`,
-- os/rt-thread-nano/src/kservice.c.
use lltrisc_v.Prelude.{
  ℕ, zero, suc, ◌+◌, ◌<◌, ◌≡◌, ◌≢◌, ◌∙◌, ◌⊎◌, inl, inr, refl, ap, arith, ℤ, pos, ◌⊖◌, is_zero,
  Bool-cases, sym,
}
use lltrisc_v.Memory.{Memory}
use lltrisc_v.Memory.Strings.{rt_memcmp}

-- The relation holds of the first `n` pairs of bytes at the two addresses.
abbrev pub Along : (ℕ → ℕ → Type 0) → Memory → (cs ct n : ℕ) → Type 0
Along R m cs ct n = (i : ℕ) → i < n → R (m (cs + i)) (m (ct + i))

-- Below `n` there is a place where `P` holds, and `R` holds before it.
abbrev pub First : (R P : ℕ → ℕ → Type 0) → Memory → (cs ct n : ℕ) → Type 0
First R P m cs ct n = (i : ℕ) × (i < n) × Along R m cs ct i × P (m (cs + i)) (m (ct + i))

module _ (R P : ℕ → ℕ → Type 0) (m : Memory) (cs ct n : ℕ) where
  moved : (Q : ℕ → ℕ → Type 0) (a b c d : ℕ) → a ≡ c → b ≡ d → Q (m a) (m b) → Q (m c) (m d)
  moved Q a b c d e f q = rw e at (rw f at q)

  pub Along-cons : R (m cs) (m ct) → Along R m (cs + 1) (ct + 1) n → Along R m cs ct (suc n)
  Along-cons r rs zero h = moved R cs ct (cs + 0) (ct + 0) (omega arith) (omega arith) r
  Along-cons r rs (suc i) h =
      moved R (cs + 1 + i) (ct + 1 + i) (cs + suc i) (ct + suc i) (omega arith) (omega arith)
        (rs i (omega (arith, h)))

  pub First-here : P (m cs) (m ct) → First R P m cs ct (suc n)
  First-here p = (
    0,
    omega arith,
    (λ i h. absurd (omega (arith, h))),
    moved P cs ct (cs + 0) (ct + 0) (omega arith) (omega arith) p,
  )

module _ (R P : ℕ → ℕ → Type 0) (m : Memory) (cs ct n : ℕ) where
  pub First-later : R (m cs) (m ct) → First R P m (cs + 1) (ct + 1) n → First R P m cs ct (suc n)
  First-later r (i, h, rs, p) = (
    suc i,
    omega (arith, h),
    Along-cons R P m cs ct i r rs,
    moved R P m cs ct n P (cs + 1 + i) (ct + 1 + i) (cs + suc i) (ct + suc i) (omega arith)
        (omega arith) p,
  )

abbrev pub Same : ℕ → ℕ → Type 0
Same x y = x ≡ y

-- The bytes differ, and the result is their difference.
abbrev pub Differ : ℤ → ℕ → ℕ → Type 0
Differ res x y = (x ≢ y) × (res ≡ x ⊖ y)

-- rt_memcmp returns 0 and the two areas hold the same bytes, or there is a first place where they differ
-- and the result is the difference of the bytes there.
pub rt_memcmp-cases :
    (m : Memory) (cs ct n : ℕ)
    → (rt_memcmp m cs ct n ≡ pos 0) × Along Same m cs ct n
      ⊎ First Same (Differ (rt_memcmp m cs ct n)) m cs ct n
unfolding rt_memcmp
rt_memcmp-cases m cs ct zero = inl (refl, λ i h. absurd (omega (arith, h)))
rt_memcmp-cases m cs ct (suc n) = elim (Bool-cases (is_zero (m cs ⊖ m ct))) [
  | inl e ↦ rw e (elim (rt_memcmp-cases m (cs + 1) (ct + 1) n) [
    | inl (z, same) ↦ inl (z, Along-cons Same Same m cs ct n (ground (arith, e)) same)
    | inr first ↦ inr (
        First-later Same (Differ (rt_memcmp m (cs + 1) (ct + 1) n)) m cs ct n (ground (arith, e))
          first)
  ])
  | inr e ↦ rw e (inr (First-here Same (Differ (m cs ⊖ m ct)) m cs ct n (ground (arith, e), refl)))
]

-- A string of `n` bytes before the zero byte.
abbrev pub IsString : Memory → (s n : ℕ) → Type 0
IsString m s n = ((i : ℕ) → i < n → m (s + i) ≢ 0) × (m (s + n) ≡ 0)

pub IsString-tail : (m : Memory) (s n : ℕ) → IsString m s (suc n) → (m s ≢ 0) × IsString m (s + 1) n
IsString-tail m s n (f, e) = (
  (λ z. f 0 (omega arith) (ap m here ∙ z)),
  ((λ i h z. f (suc i) (omega (arith, h)) (ap m (there i) ∙ z)), ap m (sym (there n)) ∙ e),
)
  where
    here : s + 0 ≡ s
    here = omega arith

    there : (i : ℕ) → s + suc i ≡ s + 1 + i
    there i = omega arith
