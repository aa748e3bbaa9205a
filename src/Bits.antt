-- ===== src/Bits.antt =====
-- Single bits of a word: `1 << p`, `|= mask` and `&= ~mask` as os/rt-thread-nano/src/scheduler.c
-- applies them to the ready group.
mod Step
pub mod Ffs
pub mod Sets
use Step.{or_step, and_step, zero-and, zero-or}
use lltrisc_v.Prelude.{
  ℕ, zero, suc, ◌+◌, ◌-◌, ◌*◌, ◌/◌, ◌%◌, ◌^◌, ◌≤◌, ◌<◌, bit_and, bit_or, ◌≡◌, refl, ap, sym, Bool,
  true, false, not, ◌&&◌, ◌||◌, arith, ◌==◌, ◌∙◌,
}

-- Bit `p` of the word, bit 0 the lowest.
unfoldable pub test_bit : ℕ → ℕ → Bool
test_bit a zero = a % 2 == 1
test_bit a (suc p) = test_bit (a / 2) p

-- An empty word beside one of at most `bound`.
empty_operand : (bound word : ℕ) → word ≤ bound → (bit_or word 0 ≡ word) × (bit_and word 0 ≡ 0)
empty_operand zero word h =
    let none : word ≡ 0 = omega (arith, h) in
    (ap (λ x. bit_or x 0) none ∙ sym none, ap (λ x. bit_and x 0) none)
empty_operand (suc bound) word h =
    let (same, none_left) = empty_operand bound (word / 2) (omega (arith, h)) in
    (omega (arith, or_step word 0, same), omega (arith, and_step word 0, none_left))

pub or-zero : (a : ℕ) → bit_or a 0 ≡ a
or-zero a = (empty_operand a a (omega arith)).0

pub and-zero : (a : ℕ) → bit_and a 0 ≡ 0
and-zero a = (empty_operand a a (omega arith)).1

-- A mask of `w` ones leaves a word of `w` bits as it is.
pub and-ones : (w a : ℕ) → a < 2 ^ w → bit_and a (2 ^ w - 1) ≡ a
and-ones zero a h = ground (arith, and-zero a)
and-ones (suc w) a h = omega (
  arith,
  ap (λ x. bit_and (a / 2) x) (halved w),
  and_step a (2 ^ suc w - 1),
  and-ones w (a / 2) (omega arith),
)
  where
    halved : (w : ℕ) → (2 ^ suc w - 1) / 2 ≡ 2 ^ w - 1
    halved w = omega arith

or_odd-half : (a : ℕ) → bit_or a 1 / 2 ≡ a / 2
or_odd-half a = omega (arith, or_step a 1, or-zero (a / 2))

half_pow : (p : ℕ) → 2 ^ suc p / 2 ≡ 2 ^ p
half_pow p = omega arith

or_pow : (p a : ℕ) → bit_or a (2 ^ suc p) ≡ bit_or (a / 2) (2 ^ p) * 2 + a % 2
or_pow p a = omega (arith, or_step a (2 ^ suc p), ap (λ x. bit_or (a / 2) x) (half_pow p))

or_pow-half : (p a : ℕ) → bit_or a (2 ^ suc p) / 2 ≡ bit_or (a / 2) (2 ^ p)
or_pow-half p a = omega (arith, or_pow p a)

or_pow-low : (p a : ℕ) → bit_or a (2 ^ suc p) % 2 ≡ a % 2
or_pow-low p a = omega (arith, or_pow p a)

-- `group |= 1 << p` sets bit `p` and no other.
pub test_bit-or : (p q a : ℕ) → test_bit (bit_or a (2 ^ p)) q ≡ ((p == q) || test_bit a q)
unfolding test_bit
test_bit-or zero zero a = ground (arith, or_step a 1)
test_bit-or zero (suc q) a = ap (λ x. test_bit x q) (or_odd-half a) ∙ ground arith
test_bit-or (suc p) zero a = ap (λ x. x == 1) (or_pow-low p a) ∙ ground arith
test_bit-or (suc p) (suc q) a =
    ap (λ x. test_bit x q) (or_pow-half p a) ∙ test_bit-or p q (a / 2) ∙ ground arith

-- The word `~(1 << p)` of `w` bits.
abbrev pub clear_mask : ℕ → ℕ → ℕ
clear_mask w p = 2 ^ w - 1 - 2 ^ p

clear_low : (w a : ℕ) → a < 2 ^ suc w → bit_and a (clear_mask (suc w) 0) ≡ a / 2 * 2
clear_low w a h = omega (
  arith,
  and_step a (clear_mask (suc w) 0),
  ap (λ x. bit_and (a / 2) x) (halved w),
  and-ones w (a / 2) (omega arith),
)
  where
    halved : (w : ℕ) → clear_mask (suc w) 0 / 2 ≡ 2 ^ w - 1
    halved w = omega arith

mask_half : (w p : ℕ) → 2 ^ p < 2 ^ w → clear_mask (suc w) (suc p) / 2 ≡ clear_mask w p
mask_half w p h = omega arith

clear_high :
    (w p a : ℕ)
    → 2 ^ p < 2 ^ w
    → bit_and a (clear_mask (suc w) (suc p)) ≡ bit_and (a / 2) (clear_mask w p) * 2 + a % 2
clear_high w p a h =
    omega (
      arith,
      and_step a (clear_mask (suc w) (suc p)),
      ap (λ x. bit_and (a / 2) x) (mask_half w p h),
    )

clear_high-low : (w p a : ℕ) → 2 ^ p < 2 ^ w → bit_and a (clear_mask (suc w) (suc p)) % 2 ≡ a % 2
clear_high-low w p a h = omega (arith, clear_high w p a h)

clear_high-half :
    (w p a : ℕ)
    → 2 ^ p < 2 ^ w
    → bit_and a (clear_mask (suc w) (suc p)) / 2 ≡ bit_and (a / 2) (clear_mask w p)
clear_high-half w p a h = omega (arith, clear_high w p a h)

pub pow_mono : (p w : ℕ) → p < w → 2 ^ p < 2 ^ w
pow_mono zero zero h = absurd (omega arith)
pow_mono zero (suc w) h = omega (arith, pow_pos w)
  where
    pow_pos : (w : ℕ) → 0 < 2 ^ w
    pow_pos zero = omega arith
    pow_pos (suc w) = omega (arith, pow_pos w)
pow_mono (suc p) zero h = absurd (omega arith)
pow_mono (suc p) (suc w) h = omega (arith, pow_mono p w (omega arith))

-- `group &= ~(1 << p)` on a word of `w` bits clears bit `p` and no other.
pub test_bit-and :
    (w p q a : ℕ)
    → p < w
    → a < 2 ^ w
    → test_bit (bit_and a (clear_mask w p)) q ≡ (not (p == q) && test_bit a q)
unfolding test_bit
test_bit-and zero p q a h k = absurd (omega arith)
test_bit-and (suc w) zero zero a h k = ap (λ x. x == 1) low ∙ ground arith
  where
    low : bit_and a (clear_mask (suc w) 0) % 2 ≡ 0
    low = omega (arith, clear_low w a k)
test_bit-and (suc w) zero (suc q) a h k = ap (λ x. test_bit x q) half ∙ ground arith
  where
    half : bit_and a (clear_mask (suc w) 0) / 2 ≡ a / 2
    half = omega (arith, clear_low w a k)
test_bit-and (suc w) (suc p) zero a h k =
    ap (λ x. x == 1) (clear_high-low w p a (pow_mono p w (omega arith))) ∙ ground arith
test_bit-and (suc w) (suc p) (suc q) a h k =
    ap (λ x. test_bit x q) (clear_high-half w p a (pow_mono p w (omega arith)))
    ∙ test_bit-and w p q (a / 2) (omega arith) (omega arith)
    ∙ ground arith

-- A cleared or a widened word still fits.
pub and-le : (n a b : ℕ) → a ≤ n → bit_and a b ≤ a
and-le n zero b h = omega (arith, zero-and b)
and-le zero (suc a) b h = absurd (omega arith)
and-le (suc n) (suc a) b h =
    omega (arith, and_step (suc a) b, and-le n (suc a / 2) (b / 2) (omega arith))

pub or-lt : (w p a : ℕ) → p < w → a < 2 ^ w → bit_or a (2 ^ p) < 2 ^ w
or-lt zero p a h k = absurd (omega arith)
or-lt (suc w) zero a h k = omega (arith, or_step a 1, or-zero (a / 2))
or-lt (suc w) (suc p) a h k =
    omega (arith, or_pow p a, or-lt w p (a / 2) (omega arith) (omega arith))

-- `x << k`, a bit at a time
abbrev pub shift : ℕ → ℕ → ℕ
shift zero x = x
shift (suc k) x = shift k x * 2

-- Where the bits of two words do not meet, `|` adds them.
pub or-shifted :
    (k x low : ℕ)
    → low < 2 ^ k
    → (bit_or (shift k x) low ≡ shift k x + low) × (bit_or low (shift k x) ≡ low + shift k x)
or-shifted zero x low h =
    let none : low ≡ 0 = omega (arith, h) in
    (
      ap (λ y. bit_or x y) none ∙ or-zero x ∙ omega (arith, none),
      ap (λ y. bit_or y x) none ∙ zero-or x ∙ omega (arith, none),
    )
or-shifted (suc k) x low h =
    let (left, right) = or-shifted k x (low / 2) (omega (arith, h)) in
    let half : shift k x * 2 / 2 ≡ shift k x = omega arith in
    (
      omega (arith, or_step (shift k x * 2) low, ap (λ y. bit_or y (low / 2)) half, left),
      omega (arith, or_step low (shift k x * 2), ap (λ y. bit_or (low / 2) y) half, right),
    )
