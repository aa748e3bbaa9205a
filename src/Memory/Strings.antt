-- ===== src/Memory/Strings.antt =====
-- Strings ended by a zero byte, os/rt-thread-nano/src/kservice.c. A loop without a bound of its own runs on
-- fuel, and `none` is fuel spent; a `char` is a byte without a sign, as on the RISC-V core.
pub mod Compare
pub mod Order
pub mod Search
pub mod Find
use lltrisc_v.Prelude.{
  ℕ, zero, suc, ◌+◌, ◌-◌, ◌%◌, Bool, true, false, not, ◌&&◌, ◌||◌, Option, none, some,
  if◌then◌else◌, ltb, leb, ◌==◌, update, ℤ, pos, negsuc, ◌⊖◌, is_zero,
}
use lltrisc_v.Memory.{Memory}
use lltrisc_v.Memory.Fill.{fill_bytes}

-- `rt_memcmp`
unfoldable pub rt_memcmp : Memory → (cs ct count : ℕ) → ℤ
rt_memcmp m cs ct zero = pos 0
rt_memcmp m cs ct (suc count) =
    let res = m cs ⊖ m ct in
    let rest = rt_memcmp m (cs + 1) (ct + 1) count in if not (is_zero res) then res else rest

-- The loop of `rt_strlen`: the address of the byte that ends the string
unfoldable pub end_of : (fuel : ℕ) → Memory → (sc : ℕ) → Option ℕ
end_of zero m sc = none
end_of (suc fuel) m sc =
    let rest = end_of fuel m (sc + 1) in if not (m sc == 0) then rest else some sc

-- `rt_strlen`
unfoldable pub rt_strlen : (fuel : ℕ) → Memory → (s : ℕ) → Option ℕ
rt_strlen fuel m s = elim (end_of fuel m s) [ none ↦ none | some sc ↦ some (sc - s) ]

-- `rt_strnlen`: `left` is what `sc - s` has to go to `maxlen`
unfoldable pub end_within : Memory → (sc left : ℕ) → ℕ
end_within m sc zero = sc
end_within m sc (suc left) =
    let rest = end_within m (sc + 1) left in if not (m sc == 0) then rest else sc

unfoldable pub rt_strnlen : Memory → (s maxlen : ℕ) → ℕ
rt_strnlen m s maxlen = end_within m s maxlen - s

-- `rt_strcmp`
unfoldable pub rt_strcmp : (fuel : ℕ) → Memory → (cs ct : ℕ) → Option ℤ
rt_strcmp zero m cs ct = none
rt_strcmp (suc fuel) m cs ct =
    let rest = rt_strcmp fuel m (cs + 1) (ct + 1) in
    if not (m cs == 0) && m cs == m ct then rest else some (m cs ⊖ m ct)

-- `if (ca >= 'A' && ca <= 'Z') ca += 'a' - 'A'`
unfoldable pub lower : ℕ → ℕ
lower c = if leb 65 c && leb c 90 then c + 32 else c

-- `rt_strcasecmp`
unfoldable pub rt_strcasecmp : (fuel : ℕ) → Memory → (a b : ℕ) → Option ℤ
rt_strcasecmp zero m a b = none
rt_strcasecmp (suc fuel) m a b =
    let ca = lower (m a % 256) in
    let cb = lower (m b % 256) in
    let rest = rt_strcasecmp fuel m (a + 1) (b + 1) in
    if ca == cb && not (ca == 0) then rest else some (ca ⊖ cb)

-- The difference of two bytes as `signed char __res` keeps it
unfoldable pub narrow : ℕ → ℕ → ℤ
narrow a b =
    let low = (a + 256 - b) % 256 in if ltb low 128 then pos low else negsuc (256 - low - 1)

-- `rt_strncmp`
unfoldable pub rt_strncmp : Memory → (cs ct count : ℕ) → ℤ
rt_strncmp m cs ct zero = pos 0
rt_strncmp m cs ct (suc count) =
    let res = narrow (m cs) (m ct) in
    let rest = rt_strncmp m (cs + 1) (ct + 1) count in
    if not (is_zero res) || m cs == 0 then res else rest

-- `rt_strncpy`; `n` is what is left to write
unfoldable pub rt_strncpy : Memory → (d s n : ℕ) → Memory
rt_strncpy m d s zero = m
rt_strncpy m d s (suc n) =
    let next = update m d (m s) in
    let rest = rt_strncpy next (d + 1) (s + 1) n in
    if m s == 0 then fill_bytes next 0 (d + 1) n else rest

-- The loop of `rt_strstr` on a pattern of `l2 > 0` bytes: it ends at the latest where `l1` is 0.
unfoldable pub strstr_from : Memory → (l1 l2 s1 s2 : ℕ) → Option ℕ
strstr_from m zero l2 s1 s2 = none
strstr_from m (suc l1) l2 s1 s2 =
    let rest = strstr_from m l1 l2 (s1 + 1) s2 in
    if leb l2 (suc l1) then if is_zero (rt_memcmp m s1 s2 l2) then some s1 else rest else none

-- `rt_strstr`; the inner `none` is RT_NULL
unfoldable pub rt_strstr : (fuel : ℕ) → Memory → (s1 s2 : ℕ) → Option (Option ℕ)
rt_strstr fuel m s1 s2 = elim (rt_strlen fuel m s2) [
  | none ↦ none
  | some zero ↦ some (some s1)
  | some (suc l2) ↦ elim (rt_strlen fuel m s1) [
    | none ↦ none
    | some l1 ↦ some (strstr_from m l1 (suc l2) s1 s2)
  ]
]
