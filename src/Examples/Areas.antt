-- ===== src/Examples/Areas.antt =====
-- The theorems on memory, strings and the error number at concrete areas.
use lltrisc_v.Prelude.{
  ℕ, zero, suc, get_or, ◌==◌, ◌+◌, ◌-◌, ◌%◌, ◌<◌, ◌≡◌, ◌≢◌, inr, refl, [], ◌∷◌, some, Option, arith,
  if◌then◌else◌,
}
use lltrisc_v.Memory.{Memory, IsBytes, within}
use lltrisc_v.Memory.Copy.{Copied, rt_memcpy, rt_memmove, rt_memmove-Copied}
use lltrisc_v.Memory.Copy.Words.{rt_memcpy-Copied}
use lltrisc_v.Memory.Fill.{Filled, rt_memset, rt_memset-Filled}
use lltrisc_v.Memory.Strings.{rt_strstr}
use lltrisc_v.Memory.Strings.Compare.{IsString}
use lltrisc_v.Memory.Strings.Search.{Found, rt_strstr-Found}

-- From 100 on the text "abcab", from 200 on "ca", each with its zero byte; elsewhere the address.
abbrev text : Memory
text a =
    if within 100 6 a
    then get_or (97 ∷ 98 ∷ 99 ∷ 97 ∷ 98 ∷ []) (a - 100) 0
    else if within 200 3 a
    then get_or (99 ∷ 97 ∷ []) (a - 200) 0
    else a % 256

abcab_nonzero : (i : ℕ) → i < 5 → text (100 + i) ≢ 0
abcab_nonzero zero h z = ground (arith, z)
abcab_nonzero (suc zero) h z = ground (arith, z)
abcab_nonzero (suc (suc zero)) h z = ground (arith, z)
abcab_nonzero (suc (suc (suc zero))) h z = ground (arith, z)
abcab_nonzero (suc (suc (suc (suc zero)))) h z = ground (arith, z)
abcab_nonzero (suc (suc (suc (suc (suc i))))) h z = omega (arith, h)

ca_nonzero : (i : ℕ) → i < 2 → text (200 + i) ≢ 0
ca_nonzero zero h z = ground (arith, z)
ca_nonzero (suc zero) h z = ground (arith, z)
ca_nonzero (suc (suc i)) h z = omega (arith, h)

abcab : IsString text 100 5
abcab = (abcab_nonzero, refl)

ca : IsString text 200 2
ca = (ca_nonzero, refl)

text-IsBytes : IsBytes (λ a. text a % 256)
text-IsBytes a = omega arith

rt_memset-Filled_example : Filled text (65 % 256) 300 23 (rt_memset text 300 65 23)
rt_memset-Filled_example = rt_memset-Filled text 300 65 23

rt_memmove-Copied_example : Copied text 102 100 5 (rt_memmove text 102 100 5)
rt_memmove-Copied_example = rt_memmove-Copied text 102 100 5

rt_memcpy-Copied_example :
    Copied (λ a. text a % 256) 300 100 23 (rt_memcpy (λ a. text a % 256) 300 100 23)
rt_memcpy-Copied_example =
    rt_memcpy-Copied (λ a. text a % 256) 300 100 23 text-IsBytes (inr (omega arith))

rt_strstr-Found_example :
    (r : Option ℕ) × (rt_strstr 9 text 100 200 ≡ some r) × Found text 5 2 100 200 r
rt_strstr-Found_example = rt_strstr-Found 9 text 100 200 5 2 abcab ca (omega arith) (omega arith)

-- Bytes 200 and 10, as text above 7 bits has them.
abbrev high : Memory
high a = if a == 100 then 200 else 10
