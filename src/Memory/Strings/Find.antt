-- ===== src/Memory/Strings/Find.antt =====
-- Lengths, search and the bounded copy of strings, os/rt-thread-nano/src/kservice.c.
use lltrisc_v.Prelude.{
  ℕ, zero, suc, ◌+◌, ◌-◌, ◌<◌, ◌≤◌, ◌≡◌, ◌≢◌, ◌∙◌, ◌⊎◌, inl, inr, ap, arith, true, false, Option,
  none, some, if◌then◌else◌, ltb, ◌==◌, update, Bool-cases, ==→eq,
}
use lltrisc_v.Memory.{Memory, within}
use lltrisc_v.Memory.Fill.{fill_bytes-Filled}
use lltrisc_v.Memory.Strings.{end_of, rt_strlen, end_within, rt_strnlen, rt_strncpy}
use lltrisc_v.Memory.Strings.Compare.{IsString, IsString-tail}

end_of-IsString :
    (fuel : ℕ) (m : Memory) (s n : ℕ) → IsString m s n → n < fuel → end_of fuel m s ≡ some (s + n)
unfolding end_of
end_of-IsString zero m s n h k = absurd (omega (arith, k))
end_of-IsString (suc fuel) m s zero h k =
    let start : s ≡ s + 0 = omega arith in
    let over : m s ≡ 0 = ap m start ∙ h.1 in ground (arith, over)
end_of-IsString (suc fuel) m s (suc n) h k =
    let (nonzero, tail) = IsString-tail m s n h in
    ground (arith, nonzero, end_of-IsString fuel m (s + 1) n tail (omega (arith, k)))

-- Given fuel for more than the bytes of the string, rt_strlen returns their number.
pub rt_strlen-IsString :
    (fuel : ℕ) (m : Memory) (s n : ℕ) → IsString m s n → n < fuel → rt_strlen fuel m s ≡ some n
unfolding rt_strlen
rt_strlen-IsString fuel m s n h k =
    let less : s + n - s ≡ n = omega arith in
    ap length_to (end_of-IsString fuel m s n h k) ∙ ap some less
  where
    length_to : Option ℕ → Option ℕ
    length_to e = elim e [ none ↦ none | some sc ↦ some (sc - s) ]

end_within-cases :
    (m : Memory) (s left : ℕ)
    → let e = end_within m s left in
      (s ≤ e) × (e ≤ s + left) × ((i : ℕ) → s ≤ i → i < e → m i ≢ 0) × (e < s + left → m e ≡ 0)
unfolding end_within
end_within-cases m s zero = (
  omega arith,
  omega arith,
  (λ i h k. absurd (omega (arith, h, k))),
  (λ h. absurd (omega (arith, h))),
)
end_within-cases m s (suc left) = elim (Bool-cases (m s == 0)) [
  | inl e ↦
      rw e
        (omega arith, omega arith, (λ i h k. absurd (omega (arith, h, k))), (λ h. ==→eq (m s) 0 e))
  | inr e ↦
      let (low, high, before, at) = end_within-cases m (s + 1) left in
      rw e (
        omega (arith, low),
        omega (arith, high),
        (λ i h k. nonzero e before i h k),
        (λ h. at (omega (arith, h))),
      )
]
  where
    nonzero :
        (m s == 0) ≡ false
        → ((i : ℕ) → s + 1 ≤ i → i < end_within m (s + 1) left → m i ≢ 0)
        → (i : ℕ) → s ≤ i
        → i < end_within m (s + 1) left
        → m i ≢ 0
    nonzero e before i h k z = elim (Bool-cases (s == i)) [
      | inl here ↦ ground (arith, ap m (==→eq s i here), e, z)
      | inr off ↦ before i (ground (arith, off, h)) k z
    ]

-- rt_strnlen returns the number of bytes before the first zero byte, and at most `maxlen`: the bytes it
-- counts are not zero, and where it counts fewer than `maxlen` the next one is.
pub rt_strnlen-cases :
    (m : Memory) (s maxlen : ℕ)
    → let n = rt_strnlen m s maxlen in
      (n ≤ maxlen) × ((i : ℕ) → i < n → m (s + i) ≢ 0) × (n < maxlen → m (s + n) ≡ 0)
unfolding rt_strnlen
rt_strnlen-cases m s maxlen =
    let (low, high, before, at) = end_within-cases m s maxlen in
    let end : s + (end_within m s maxlen - s) ≡ end_within m s maxlen = omega (arith, low) in
    (
      omega (arith, high),
      (λ i h. before (s + i) (omega arith) (omega (arith, h))),
      (λ h. ap m end ∙ at (omega (arith, h, end))),
    )

IsString-update :
    (m : Memory) (s k d v : ℕ) → d < s ⊎ s + k < d → IsString m s k → IsString (update m d v) s k
IsString-update m s k d v o (f, e) =
    ((λ i h z. f i h (ground (arith, z, o, h))), ground (arith, e, o))

-- rt_strncpy, where the target is apart from the source string of `k` bytes, writes the `n` cells of the
-- target and no other: the bytes of the string as far as they go, and zero bytes from there on.
pub rt_strncpy-padded :
    (m : Memory) (d s n k : ℕ)
    → IsString m s k
    → (d + n ≤ s) ⊎ (s + k < d)
    → (a : ℕ)
    → rt_strncpy m d s n a
      ≡ (if within d n a then (if ltb (a - d) k then m (s + (a - d)) else 0) else m a)
unfolding rt_strncpy
rt_strncpy-padded m d s zero k h o a = ground arith
rt_strncpy-padded m d s (suc n) zero h o a =
    let start : s ≡ s + 0 = omega arith in
    let over : m s ≡ 0 = ap m start ∙ h.1 in
    let test : (m s == 0) ≡ true = ground (arith, over) in
    rw test (ground (arith, fill_bytes-Filled (update m d (m s)) 0 (d + 1) n a, over))
rt_strncpy-padded m d s (suc n) (suc k) h o a =
    let (nonzero, tail) = IsString-tail m s k h in
    let test : (m s == 0) ≡ false = ground (arith, nonzero) in
    let rest =
      rt_strncpy-padded (update m d (m s)) (d + 1) (s + 1) n k
        (IsString-update m (s + 1) k d (m s) (ground (arith, o)) tail) (ground (arith, o)) a in
    rw test (later rest)
  where
    later :
        rt_strncpy (update m d (m s)) (d + 1) (s + 1) n a ≡ (
          if within (d + 1) n a
          then (if ltb (a - (d + 1)) k then update m d (m s) (s + 1 + (a - (d + 1))) else 0)
          else update m d (m s) a)
        → rt_strncpy (update m d (m s)) (d + 1) (s + 1) n a ≡ (
            if within d (suc n) a
            then (if ltb (a - d) (suc k) then m (s + (a - d)) else 0)
            else m a)
    later e = elim (Bool-cases (d == a)) [
      | inl here ↦
          let place : s + (a - d) ≡ s = ground (arith, here) in ground (arith, e, here, ap m place)
      | inr off ↦ elim (Bool-cases (within (d + 1) n a)) [
        | inl inside ↦
            let place : s + 1 + (a - (d + 1)) ≡ s + (a - d) = ground (arith, inside) in
            ground (arith, e, inside, ap m place, o)
        | inr outside ↦ ground (arith, e, off, outside)
      ]
    ]
