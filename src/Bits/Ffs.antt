-- ===== src/Bits/Ffs.antt =====
-- `__rt_ffs` of os/rt-thread-nano/src/kservice.c: the index of the lowest set bit, counted from 1,
-- by a table of bytes.
use lltrisc_v.Prelude.{
  ◌≢◌, ℕ, zero, suc, ◌+◌, ◌*◌, ◌/◌, ◌%◌, ◌^◌, ◌<◌, ◌≤◌, bit_and, ◌≡◌, refl, ap, ◌∙◌, Bool, true,
  false, not, ◌&&◌, ◌||◌, List, [], ◌∷◌, arith, ◌==◌, if◌then◌else◌, get_or, Bool-cases, inl, inr,
  ==→eq, ltb,
}
use lltrisc_v.Bits.{test_bit, and_step, and-zero}

-- `__lowest_bit_bitmap`
unfoldable pub lowest_bit_bitmap : List ℕ
lowest_bit_bitmap =
    0 ∷ 0 ∷ 1 ∷ 0 ∷ 2 ∷ 0 ∷ 1 ∷ 0 ∷ 3 ∷ 0 ∷ 1 ∷ 0 ∷ 2 ∷ 0 ∷ 1 ∷ 0 ∷ 4 ∷ 0 ∷ 1 ∷ 0 ∷ 2 ∷ 0 ∷ 1 ∷ 0
    ∷ 3 ∷ 0 ∷ 1 ∷ 0 ∷ 2 ∷ 0 ∷ 1 ∷ 0 ∷ 5 ∷ 0 ∷ 1 ∷ 0 ∷ 2 ∷ 0 ∷ 1 ∷ 0 ∷ 3 ∷ 0 ∷ 1 ∷ 0 ∷ 2 ∷ 0 ∷ 1 ∷ 0
    ∷ 4 ∷ 0 ∷ 1 ∷ 0 ∷ 2 ∷ 0 ∷ 1 ∷ 0 ∷ 3 ∷ 0 ∷ 1 ∷ 0 ∷ 2 ∷ 0 ∷ 1 ∷ 0 ∷ 6 ∷ 0 ∷ 1 ∷ 0 ∷ 2 ∷ 0 ∷ 1 ∷ 0
    ∷ 3 ∷ 0 ∷ 1 ∷ 0 ∷ 2 ∷ 0 ∷ 1 ∷ 0 ∷ 4 ∷ 0 ∷ 1 ∷ 0 ∷ 2 ∷ 0 ∷ 1 ∷ 0 ∷ 3 ∷ 0 ∷ 1 ∷ 0 ∷ 2 ∷ 0 ∷ 1 ∷ 0
    ∷ 5 ∷ 0 ∷ 1 ∷ 0 ∷ 2 ∷ 0 ∷ 1 ∷ 0 ∷ 3 ∷ 0 ∷ 1 ∷ 0 ∷ 2 ∷ 0 ∷ 1 ∷ 0 ∷ 4 ∷ 0 ∷ 1 ∷ 0 ∷ 2 ∷ 0 ∷ 1 ∷ 0
    ∷ 3 ∷ 0 ∷ 1 ∷ 0 ∷ 2 ∷ 0 ∷ 1 ∷ 0 ∷ 7 ∷ 0 ∷ 1 ∷ 0 ∷ 2 ∷ 0 ∷ 1 ∷ 0 ∷ 3 ∷ 0 ∷ 1 ∷ 0 ∷ 2 ∷ 0 ∷ 1 ∷ 0
    ∷ 4 ∷ 0 ∷ 1 ∷ 0 ∷ 2 ∷ 0 ∷ 1 ∷ 0 ∷ 3 ∷ 0 ∷ 1 ∷ 0 ∷ 2 ∷ 0 ∷ 1 ∷ 0 ∷ 5 ∷ 0 ∷ 1 ∷ 0 ∷ 2 ∷ 0 ∷ 1 ∷ 0
    ∷ 3 ∷ 0 ∷ 1 ∷ 0 ∷ 2 ∷ 0 ∷ 1 ∷ 0 ∷ 4 ∷ 0 ∷ 1 ∷ 0 ∷ 2 ∷ 0 ∷ 1 ∷ 0 ∷ 3 ∷ 0 ∷ 1 ∷ 0 ∷ 2 ∷ 0 ∷ 1 ∷ 0
    ∷ 6 ∷ 0 ∷ 1 ∷ 0 ∷ 2 ∷ 0 ∷ 1 ∷ 0 ∷ 3 ∷ 0 ∷ 1 ∷ 0 ∷ 2 ∷ 0 ∷ 1 ∷ 0 ∷ 4 ∷ 0 ∷ 1 ∷ 0 ∷ 2 ∷ 0 ∷ 1 ∷ 0
    ∷ 3 ∷ 0 ∷ 1 ∷ 0 ∷ 2 ∷ 0 ∷ 1 ∷ 0 ∷ 5 ∷ 0 ∷ 1 ∷ 0 ∷ 2 ∷ 0 ∷ 1 ∷ 0 ∷ 3 ∷ 0 ∷ 1 ∷ 0 ∷ 2 ∷ 0 ∷ 1 ∷ 0
    ∷ 4 ∷ 0 ∷ 1 ∷ 0 ∷ 2 ∷ 0 ∷ 1 ∷ 0 ∷ 3 ∷ 0 ∷ 1 ∷ 0 ∷ 2 ∷ 0 ∷ 1 ∷ 0 ∷ []

-- `__rt_ffs`, on the bit pattern of `value`
unfoldable pub rt_ffs : ℕ → ℕ
rt_ffs value =
    if value == 0
    then 0
    else if not (bit_and value 0xff == 0)
    then get_or lowest_bit_bitmap (bit_and value 0xff) 0 + 1
    else if not (bit_and value 0xff00 == 0)
    then get_or lowest_bit_bitmap (bit_and value 0xff00 / 2 ^ 8) 0 + 9
    else if not (bit_and value 0xff0000 == 0)
    then get_or lowest_bit_bitmap (bit_and value 0xff0000 / 2 ^ 16) 0 + 17
    else get_or lowest_bit_bitmap (bit_and value 0xff000000 / 2 ^ 24) 0 + 25

-- Is bit `b` the lowest set bit?
pub is_lowest : ℕ → ℕ → Bool
is_lowest v zero = v % 2 == 1
is_lowest v (suc b) = (v % 2 == 0) && is_lowest (v / 2) b

-- A test that every index of a table passes, `count` indices from `first` on.
passes : (test : ℕ → Bool) → (first count : ℕ) → Bool
passes test first zero = true
passes test first (suc count) = test first && passes test (first + 1) count

passes-index :
    (test : ℕ → Bool) (first count index : ℕ)
    → passes test first count ≡ true
    → first ≤ index
    → index < first + count
    → test index ≡ true
unfolding passes
passes-index test first zero index all from below = absurd (omega (arith, from, below))
passes-index test first (suc count) index all from below = elim (Bool-cases (first == index)) [
  | inl here ↦ ground (arith, all, here)
  | inr later ↦
      passes-index test (first + 1) count index (ground arith) (ground arith) (omega arith)
]

abbrev table_entry : ℕ → Bool
table_entry x =
    (x == 0) || (ltb (get_or lowest_bit_bitmap x 0) 8 && is_lowest x (get_or lowest_bit_bitmap x 0))

table_sound : passes table_entry 0 256 ≡ true
unfolding passes is_lowest lowest_bit_bitmap
table_sound = refl

-- The bytes of a word under the masks that the function tests.
and-odd : (v m : ℕ) → bit_and v (m * 2 + 1) ≡ bit_and (v / 2) m * 2 + v % 2
and-odd v m = omega (arith, and_step v (m * 2 + 1), ap (λ x. bit_and (v / 2) x) (half m))
  where
    half : (m : ℕ) → (m * 2 + 1) / 2 ≡ m
    half m = omega arith

and_byte : (v : ℕ) → bit_and v 0xff ≡ v % 256
and_byte v = omega (
  arith,
  and-odd v 127,
  and-odd (v / 2) 63,
  and-odd (v / 2 / 2) 31,
  and-odd (v / 2 / 2 / 2) 15,
  and-odd (v / 2 / 2 / 2 / 2) 7,
  and-odd (v / 2 / 2 / 2 / 2 / 2) 3,
  and-odd (v / 2 / 2 / 2 / 2 / 2 / 2) 1,
  and-odd (v / 2 / 2 / 2 / 2 / 2 / 2 / 2) 0,
  and-zero (v / 2 / 2 / 2 / 2 / 2 / 2 / 2 / 2),
)

and-double : (v m : ℕ) → bit_and v (m * 2) ≡ bit_and (v / 2) m * 2
and-double v m = omega (arith, and_step v (m * 2), ap (λ x. bit_and (v / 2) x) (half m))
  where
    half : (m : ℕ) → m * 2 / 2 ≡ m
    half m = omega arith

abbrev by_16 : ℕ → ℕ
by_16 m = m * 2 * 2 * 2 * 2

and_nibble : (v m : ℕ) → bit_and v (by_16 m) ≡ by_16 (bit_and (v / 16) m)
and_nibble v m = omega (
  arith,
  and-double v (m * 2 * 2 * 2),
  and-double (v / 2) (m * 2 * 2),
  and-double (v / 2 / 2) (m * 2),
  and-double (v / 2 / 2 / 2) m,
  ap (λ x. bit_and x m) (halves v),
)
  where
    halves : (v : ℕ) → v / 2 / 2 / 2 / 2 ≡ v / 16
    halves v = omega arith

and_shift : (v m : ℕ) → bit_and v (by_16 (by_16 m)) ≡ bit_and (v / 256) m * 256
and_shift v m =
    omega (arith, and_nibble v (by_16 m), and_nibble (v / 16) m, ap (λ x. bit_and x m) (halves v))
  where
    halves : (v : ℕ) → v / 16 / 16 ≡ v / 256
    halves v = omega arith

and_byte1 : (v : ℕ) → bit_and v 0xff00 ≡ v / 256 % 256 * 256
and_byte1 v = omega (arith, and_shift v 0xff, and_byte (v / 256))

and_byte2 : (v : ℕ) → bit_and v 0xff0000 ≡ v / 256 / 256 % 256 * 65536
and_byte2 v = omega (arith, and_shift v 0xff00, and_byte1 (v / 256))

and_byte3 : (v : ℕ) → bit_and v 0xff000000 ≡ v / 256 / 256 / 256 % 256 * 16777216
and_byte3 v = omega (arith, and_shift v 0xff0000, and_byte2 (v / 256))

-- The low `k` bits, digit by digit.
low : ℕ → ℕ → ℕ
low zero v = 0
low (suc k) v = low k (v / 2) * 2 + v % 2

low_byte : (v : ℕ) → low 8 v ≡ v % 256
unfolding low
low_byte v = omega arith

lowest_in_low : (k b v : ℕ) → b < k → is_lowest (low k v) b ≡ true → is_lowest v b ≡ true
unfolding is_lowest low
lowest_in_low zero b v h l = absurd (omega arith)
lowest_in_low (suc k) zero v h l = ground arith
lowest_in_low (suc k) (suc b) v h l =
    ground (arith, lowest_in_low k b (v / 2), ap (λ x. is_lowest x b) (half k v))
  where
    half : (k v : ℕ) → (low k (v / 2) * 2 + v % 2) / 2 ≡ low k (v / 2)
    half k v = omega arith

lowest_in_byte : (b v : ℕ) → b < 8 → is_lowest (v % 256) b ≡ true → is_lowest v b ≡ true
lowest_in_byte b v h l = lowest_in_low 8 b v h (rw (low_byte v) l)

lowest_above : (b v : ℕ) → v % 2 ≡ 0 → is_lowest (v / 2) b ≡ true → is_lowest v (suc b) ≡ true
unfolding is_lowest
lowest_above b v e l = ground arith

lowest_next_nibble :
    (b v : ℕ) → v % 16 ≡ 0 → is_lowest (v / 16) b ≡ true → is_lowest v (b + 4) ≡ true
lowest_next_nibble b v e l =
    ap (is_lowest v) (numeral b)
    ∙ lowest_above (suc (suc (suc b))) v (omega arith) (
        lowest_above (suc (suc b)) (v / 2) (omega arith) (
          lowest_above (suc b) (v / 2 / 2) (omega arith) (
            lowest_above b (v / 2 / 2 / 2) (omega arith) (ap (λ x. is_lowest x b) (halves v) ∙ l))))
  where
    numeral : (b : ℕ) → b + 4 ≡ suc (suc (suc (suc b)))
    numeral b = omega arith

    halves : (v : ℕ) → v / 2 / 2 / 2 / 2 ≡ v / 16
    halves v = omega arith

lowest_next_byte :
    (b v : ℕ) → v % 256 ≡ 0 → is_lowest (v / 256) b ≡ true → is_lowest v (b + 8) ≡ true
lowest_next_byte b v e l =
    ap (is_lowest v) (numeral b)
    ∙ lowest_next_nibble (b + 4) v (omega arith)
        (lowest_next_nibble b (v / 16) (omega arith) (ap (λ x. is_lowest x b) (halves v) ∙ l))
  where
    numeral : (b : ℕ) → b + 8 ≡ b + 4 + 4
    numeral b = omega arith

    halves : (v : ℕ) → v / 16 / 16 ≡ v / 256
    halves v = omega arith

-- The table holds the lowest bit of each byte.
abbrev entry : ℕ → ℕ
entry x = get_or lowest_bit_bitmap x 0

entry_correct : (x : ℕ) → x < 256 → x ≢ 0 → (entry x < 8) × (is_lowest x (entry x) ≡ true)
entry_correct x h n = ground (arith, passes-index table_entry 0 256 x table_sound (omega arith) h)

-- A step of the search: in this byte, or in the next ones.
lowest_by_byte :
    (v r : ℕ)
    → (v % 256 ≢ 0 → r ≡ entry (v % 256))
    → (v % 256 ≡ 0 → (b : ℕ) × (r ≡ b + 8) × (is_lowest (v / 256) b ≡ true))
    → is_lowest v r ≡ true
lowest_by_byte v r here there = elim (Bool-cases (v % 256 == 0)) [
  | inl e ↦
      let (b, q, l) = there (==→eq _ _ e) in
      ap (is_lowest v) q ∙ lowest_next_byte b v (==→eq _ _ e) l
  | inr e ↦
      let (small, l) = entry_correct (v % 256) (omega arith) (ground arith) in
      ap (is_lowest v) (here (ground arith)) ∙ lowest_in_byte (entry (v % 256)) v small l
]

-- The search as a recursion on the bytes left.
search : ℕ → ℕ → ℕ
search zero v = entry (v % 256)
search (suc k) v = if v % 256 == 0 then search k (v / 256) + 8 else entry (v % 256)

-- `256 ^ (k + 1)`
abbrev bytes : ℕ → ℕ
bytes zero = 256
bytes (suc k) = 256 * bytes k

search_here :
    (v k : ℕ) → v % 256 ≢ 0 → (is_lowest v (entry (v % 256)) ≡ true) × (entry (v % 256) < 8 * k + 8)
search_here v k n =
    let (small, l) = entry_correct (v % 256) (omega arith) n in
    (lowest_in_byte (entry (v % 256)) v small l, omega arith)

search_lowest :
    (k v : ℕ) → v ≢ 0 → v < bytes k → (is_lowest v (search k v) ≡ true) × (search k v < 8 * k + 8)
unfolding search
search_lowest zero v n h = search_here v 0 (omega arith)
search_lowest (suc k) v n h = elim (Bool-cases (v % 256 == 0)) [
  | inl e ↦
      let z : v % 256 ≡ 0 = ==→eq _ _ e in
      let (l, b) = search_lowest k (v / 256) (omega arith) (omega arith) in
      rw e (lowest_next_byte (search k (v / 256)) v z l, omega arith)
  | inr e ↦ rw e (search_here v (suc k) (ground arith))
]

rt_ffs-search : (v : ℕ) → v < 2 ^ 32 → v ≢ 0 → rt_ffs v ≡ search 3 v + 1
unfolding rt_ffs search
rt_ffs-search v h n =
    rw (and_byte v, and_byte1 v, and_byte2 v, and_byte3 v)
      (rw (shifted1 v, shifted2 v, shifted3 v h) (ground arith))
  where
    shifted1 : (v : ℕ) → v / 256 % 256 * 256 / 2 ^ 8 ≡ v / 256 % 256
    shifted1 v = omega arith

    shifted2 : (v : ℕ) → v / 256 / 256 % 256 * 65536 / 2 ^ 16 ≡ v / 256 / 256 % 256
    shifted2 v = omega arith

    shifted3 :
        (v : ℕ)
        → v < 2 ^ 32
        → v / 256 / 256 / 256 % 256 * 16777216 / 2 ^ 24 ≡ v / 256 / 256 / 256 % 256
    shifted3 v h = omega arith

-- What `__rt_ffs` finds.
pub rt_ffs-lowest :
    (v : ℕ) → v < 2 ^ 32 → v ≢ 0 → (b : ℕ) × (rt_ffs v ≡ b + 1) × (b < 32) × (is_lowest v b ≡ true)
rt_ffs-lowest v h n =
    let (l, b) = search_lowest 3 v n (omega arith) in
    (search 3 v, rt_ffs-search v h n, omega arith, l)

lowest-test_bit : (b v : ℕ) → is_lowest v b ≡ true → test_bit v b ≡ true
unfolding is_lowest test_bit
lowest-test_bit zero v l = l
lowest-test_bit (suc b) v l = lowest-test_bit b (v / 2) (ground arith)

below_lowest : (b q v : ℕ) → is_lowest v b ≡ true → q < b → test_bit v q ≡ false
unfolding is_lowest test_bit
below_lowest zero q v l h = absurd (omega arith)
below_lowest (suc b) zero v l h = ground arith
below_lowest (suc b) (suc q) v l h = below_lowest b q (v / 2) (ground arith) (omega arith)

-- `__rt_ffs` of a word of 32 bits other than 0 is the index, from 1, of a bit that is set while
-- every lower bit is clear; the index is at most 32.
pub rt_ffs-first :
    (v : ℕ)
    → v < 2 ^ 32
    → v ≢ 0
    → (b : ℕ) × (rt_ffs v ≡ b + 1)
      × (b < 32)
      × (test_bit v b ≡ true)
      × ((q : ℕ) → q < b → test_bit v q ≡ false)
rt_ffs-first v h n =
    let (b, e, fits, l) = rt_ffs-lowest v h n in
    (b, e, fits, lowest-test_bit b v l, λ q less. below_lowest b q v l less)
