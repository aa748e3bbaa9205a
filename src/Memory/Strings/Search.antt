-- ===== src/Memory/Strings/Search.antt =====
-- `rt_strstr`, os/rt-thread-nano/src/kservice.c.
use lltrisc_v.Prelude.{
  ℕ, zero, suc, ◌+◌, ◌<◌, ◌≤◌, ◌≡◌, inl, inr, ap, arith, true, false, Option, none, some, leb,
  is_zero, Bool-cases,
}
use lltrisc_v.Memory.{Memory}
use lltrisc_v.Memory.Strings.{strstr_from, rt_strstr, rt_memcmp}
use lltrisc_v.Memory.Strings.Compare.{Along, Same, IsString, rt_memcmp-cases}
use lltrisc_v.Memory.Strings.Find.{rt_strlen-IsString}

rt_memcmp-Same :
    (m : Memory) (cs ct n : ℕ) → is_zero (rt_memcmp m cs ct n) ≡ true → Along Same m cs ct n
rt_memcmp-Same m cs ct n e = elim (rt_memcmp-cases m cs ct n) [
  | inl (z, same) ↦ same
  | inr (i, h, before, (ne, res)) ↦ absurd (ground (arith, ap is_zero res, e, ne))
]

rt_memcmp-differs :
    (m : Memory) (cs ct n : ℕ) → is_zero (rt_memcmp m cs ct n) ≡ false → ¬ Along Same m cs ct n
rt_memcmp-differs m cs ct n e same = elim (rt_memcmp-cases m cs ct n) [
  | inl (z, also) ↦ absurd (ground (arith, ap is_zero z, e))
  | inr (i, h, before, (ne, res)) ↦ absurd (ne (same i h))
]

-- The pattern of `l2` bytes at `s2` stands `p` bytes after `s1`.
abbrev pub IsMatch : Memory → (l2 s1 s2 p : ℕ) → Type 0
IsMatch m l2 s1 s2 p = Along Same m (s1 + p) s2 l2

-- What a search of `l1` bytes finds: the first match, or `none` where no place matches.
abbrev pub Found : Memory → (l1 l2 s1 s2 : ℕ) → Option ℕ → Type 0
Found m l1 l2 s1 s2 none = (p : ℕ) → p + l2 ≤ l1 → ¬ IsMatch m l2 s1 s2 p
Found m l1 l2 s1 s2 (some q) =
    (p : ℕ) × (q ≡ s1 + p)
    × (p + l2 ≤ l1)
    × IsMatch m l2 s1 s2 p
    × ((j : ℕ) → j < p → ¬ IsMatch m l2 s1 s2 j)

module _ (m : Memory) (l2 s1 s2 : ℕ) where
  next : (p : ℕ) → s1 + suc p ≡ s1 + 1 + p
  next p = omega arith

  start : s1 + 0 ≡ s1
  start = omega arith

  no_earlier :
      ¬ Along Same m s1 s2 l2
      → (l : ℕ) → ((j : ℕ) → j < l → ¬ IsMatch m l2 (s1 + 1) s2 j)
      → (j : ℕ) → j < suc l
      → ¬ IsMatch m l2 s1 s2 j
  no_earlier off l f zero h same = off (rw start at same)
  no_earlier off l f (suc j) h same = f j (omega (arith, h)) (rw (next j) at same)

  Found-here : (l1 : ℕ) → l2 ≤ l1 → Along Same m s1 s2 l2 → Found m l1 l2 s1 s2 (some s1)
  Found-here l1 h same =
      (0, omega arith, omega (arith, h), (rw (← start) at same), λ j k. absurd (omega (arith, k)))

  not_later :
      (l1 : ℕ)
      → ¬ Along Same m s1 s2 l2
      → Found m l1 l2 (s1 + 1) s2 none
      → (p : ℕ) → p + l2 ≤ suc l1
      → ¬ IsMatch m l2 s1 s2 p
  not_later l1 off f zero h same = off (rw start at same)
  not_later l1 off f (suc p) h same = f p (omega (arith, h)) (rw (next p) at same)

  Found-later :
      (l1 : ℕ) (r : Option ℕ)
      → ¬ Along Same m s1 s2 l2
      → Found m l1 l2 (s1 + 1) s2 r
      → Found m (suc l1) l2 s1 s2 r
  Found-later l1 none off f = λ p h. not_later l1 off f p h
  Found-later l1 (some q) off (p, e, h, same, f) =
      (suc p, omega (arith, e), omega (arith, h), (rw (← next p) at same), no_earlier off p f)

strstr_from-Found :
    (m : Memory) (l1 l2 s1 s2 : ℕ) → 0 < l2 → Found m l1 l2 s1 s2 (strstr_from m l1 l2 s1 s2)
unfolding strstr_from
strstr_from-Found m zero l2 s1 s2 h = λ p k. absurd (omega (arith, h, k))
strstr_from-Found m (suc l1) l2 s1 s2 h = elim (Bool-cases (leb l2 (suc l1))) [
  | inr e ↦ rw e (λ p k. absurd (ground (arith, e, k)))
  | inl e ↦ rw e (elim (Bool-cases (is_zero (rt_memcmp m s1 s2 l2))) [
    | inl z ↦
        rw z (Found-here m l2 s1 s2 (suc l1) (ground (arith, e)) (rt_memcmp-Same m s1 s2 l2 z))
    | inr z ↦ rw z (
        Found-later m l2 s1 s2 l1 (strstr_from m l1 l2 (s1 + 1) s2) (rt_memcmp-differs m s1 s2 l2 z)
          (strstr_from-Found m l1 l2 (s1 + 1) s2 h))
  ])
]

-- Given fuel for more than the bytes of each string, rt_strstr returns: the first place of the first string
-- where the bytes of the second stand, or RT_NULL where there is no such place.
pub rt_strstr-Found :
    (fuel : ℕ) (m : Memory) (s1 s2 n k : ℕ)
    → IsString m s1 n
    → IsString m s2 k
    → n < fuel
    → k < fuel
    → (r : Option ℕ) × (rt_strstr fuel m s1 s2 ≡ some r) × Found m n k s1 s2 r
unfolding rt_strstr
rt_strstr-Found fuel m s1 s2 n zero f g h l =
    let empty = rt_strlen-IsString fuel m s2 0 g l in
    (
      some s1,
      ground (arith, empty),
      Found-here m 0 s1 s2 n (omega arith) (λ i k. absurd (omega (arith, k))),
    )
rt_strstr-Found fuel m s1 s2 n (suc k) f g h l =
    let pattern_length = rt_strlen-IsString fuel m s2 (suc k) g l in
    let text_length = rt_strlen-IsString fuel m s1 n f h in
    (
      strstr_from m n (suc k) s1 s2,
      ground (arith, pattern_length, text_length),
      strstr_from-Found m n (suc k) s1 s2 (omega arith),
    )
