-- ===== src/Bits/Sets.antt =====
-- Words as sets of bits: what `&`, `& ~` and the tests on them say of each bit.
use lltrisc_v.Prelude.{
  ℕ, zero, suc, ◌-◌, ◌/◌, ◌%◌, ◌^◌, ◌≤◌, ◌<◌, bit_and, bit_or, ◌≡◌, ◌≢◌, refl, ap, sym, ◌∙◌, inl,
  inr, true, false, not, ◌&&◌, arith, ◌==◌, Bool-cases, ==→eq,
}
use lltrisc_v.Bits.Step.{and_step, zero-and, or_step, zero-or}
use lltrisc_v.Bits.{test_bit, and-zero}

pub test_bit-bit_and : (a b p : ℕ) → test_bit (bit_and a b) p ≡ (test_bit a p && test_bit b p)
unfolding test_bit
test_bit-bit_and a b zero = ground (arith, and_step a b)
test_bit-bit_and a b (suc p) =
    let half : bit_and a b / 2 ≡ bit_and (a / 2) (b / 2) = omega (arith, and_step a b) in
    ap (λ x. test_bit x p) half ∙ test_bit-bit_and (a / 2) (b / 2) p

pub test_bit-zero : (p : ℕ) → test_bit 0 p ≡ false
unfolding test_bit
test_bit-zero zero = refl
test_bit-zero (suc p) = test_bit-zero p

pub test_bit-high : (w a p : ℕ) → a < 2 ^ w → w ≤ p → test_bit a p ≡ false
unfolding test_bit
test_bit-high zero a p h far = ap (λ x. test_bit x p) (omega (arith, h)) ∙ test_bit-zero p
test_bit-high (suc w) a zero h far = absurd (omega (arith, far))
test_bit-high (suc w) a (suc p) h far =
    test_bit-high w (a / 2) p (omega (arith, h)) (omega (arith, far))

test_bit-complement :
    (w b p : ℕ) → b < 2 ^ w → p < w → test_bit (2 ^ w - 1 - b) p ≡ not (test_bit b p)
unfolding test_bit
test_bit-complement zero b p h near = absurd (omega (arith, near))
test_bit-complement (suc w) b zero h near = ground (arith, h)
test_bit-complement (suc w) b (suc p) h near =
    let half : (2 ^ suc w - 1 - b) / 2 ≡ 2 ^ w - 1 - b / 2 = omega (arith, h) in
    ap (λ x. test_bit x p) half
    ∙ test_bit-complement w (b / 2) p (omega (arith, h)) (omega (arith, near))

-- `a & ~b` on words of `w` bits
pub test_bit-without :
    (w a b p : ℕ)
    → a < 2 ^ w
    → b < 2 ^ w
    → test_bit (bit_and a (2 ^ w - 1 - b)) p ≡ (test_bit a p && not (test_bit b p))
test_bit-without w a b p h k = ground (
  arith,
  test_bit-bit_and a (2 ^ w - 1 - b) p,
  test_bit-complement w b p k,
  test_bit-high w a p h,
)

-- A word that is not empty has a bit.
pub some_bit : (n a : ℕ) → a ≤ n → a ≢ 0 → (p : ℕ) × (test_bit a p ≡ true)
unfolding test_bit
some_bit zero a h n = absurd (omega (arith, h, n))
some_bit (suc m) a h n = elim (Bool-cases (a % 2 == 1)) [
  | inl odd ↦ (0, odd)
  | inr even ↦
      let (p, e) = some_bit m (a / 2) (omega (arith, h, n)) (ground (arith, even, n)) in (suc p, e)
]

-- A set that is not part of another has a bit that the other has not.
pub missing_bit :
    (n a b : ℕ) → a ≤ n → bit_and a b ≢ a → (p : ℕ) × (test_bit a p ≡ true) × (test_bit b p ≡ false)
unfolding test_bit
missing_bit zero a b h n =
    let none : a ≡ 0 = omega (arith, h) in
    absurd (n (ap (λ x. bit_and x b) none ∙ zero-and b ∙ sym none))
missing_bit (suc m) a b h n = elim (Bool-cases ((a % 2 == 1) && not (b % 2 == 1))) [
  | inl odd ↦ (0, ground (arith, odd), ground (arith, odd))
  | inr even ↦
      let (p, e, f) =
        missing_bit m (a / 2) (b / 2) (omega (arith, h, n))
          (ground (arith, even, n, and_step a b)) in
      (suc p, e, f)
]

pub part_of : (a b p : ℕ) → bit_and a b ≡ a → test_bit a p ≡ true → test_bit b p ≡ true
part_of a b p e h = ground (arith, test_bit-bit_and a b p, ap (λ x. test_bit x p) e, h)

pub and-part : (a b p : ℕ) → bit_and a b ≡ 0 → (test_bit a p && test_bit b p) ≡ false
and-part a b p e = sym (test_bit-bit_and a b p) ∙ ap (λ x. test_bit x p) e ∙ test_bit-zero p

pub and-le_right : (n a b : ℕ) → a ≤ n → bit_and a b ≤ b
and-le_right zero a b h =
    let none : a ≡ 0 = omega (arith, h) in
    let empty : bit_and a b ≡ 0 = ap (λ x. bit_and x b) none ∙ zero-and b in omega (arith, empty)
and-le_right (suc m) a b h = elim (Bool-cases (a == 0)) [
  | inl none ↦
      let empty : bit_and a b ≡ 0 = ap (λ x. bit_and x b) (==→eq a 0 none) ∙ zero-and b in
      omega (arith, empty)
  | inr n ↦ omega (arith, and_step a b, and-le_right m (a / 2) (b / 2) (ground (arith, h, n)))
]

-- The masks of the three lowest bits
pub mask_0 : (a : ℕ) → not (bit_and a 1 == 0) ≡ test_bit a 0
unfolding test_bit
mask_0 a = ground (arith, and_step a 1, and-zero (a / 2))

pub mask_1 : (a : ℕ) → not (bit_and a 2 == 0) ≡ test_bit a 1
unfolding test_bit
mask_1 a = ground (arith, and_step a 2, and_step (a / 2) 1, and-zero (a / 2 / 2))

pub mask_2 : (a : ℕ) → not (bit_and a 4 == 0) ≡ test_bit a 2
unfolding test_bit
mask_2 a =
    ground
      (arith, and_step a 4, and_step (a / 2) 2, and_step (a / 2 / 2) 1, and-zero (a / 2 / 2 / 2))

-- Two words of `w` bits together
pub or-fits : (w a b : ℕ) → a < 2 ^ w → b < 2 ^ w → bit_or a b < 2 ^ w
or-fits zero a b h k =
    let a_none : a ≡ 0 = omega (arith, h) in
    let b_none : b ≡ 0 = omega (arith, k) in
    let empty : bit_or a b ≡ 0 = ap (λ x. bit_or x b) a_none ∙ zero-or b ∙ b_none in
    omega (arith, empty)
or-fits (suc w) a b h k =
    omega (arith, or_step a b, or-fits w (a / 2) (b / 2) (omega (arith, h)) (omega (arith, k)))

pub bit_and-flip : (n a b : ℕ) → a ≤ n → bit_and a b ≡ bit_and b a
bit_and-flip zero a b h =
    let none : a ≡ 0 = omega (arith, h) in
    ap (λ x. bit_and x b) none ∙ zero-and b ∙ sym (ap (bit_and b) none ∙ and-zero b)
bit_and-flip (suc m) a b h = elim (Bool-cases (a == 0)) [
  | inl e ↦
      let none = ==→eq a 0 e in
      ap (λ x. bit_and x b) none ∙ zero-and b ∙ sym (ap (bit_and b) none ∙ and-zero b)
  | inr n ↦
      omega
        (arith, and_step a b, and_step b a, bit_and-flip m (a / 2) (b / 2) (ground (arith, h, n)))
]
