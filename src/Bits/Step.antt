-- ===== src/Bits/Step.antt =====
-- `bit_or` and `bit_and` one digit at a time.
use Prim.Native.Nat.{min, max, digits, bitwise, bit_and-bitwise, bit_or-bitwise}
use lltrisc_v.Prelude.{
  ℕ, zero, suc, ◌+◌, ◌*◌, ◌/◌, ◌%◌, ◌≤◌, bit_and, bit_or, ◌≡◌, refl, ap, sym, ◌∙◌, arith,
}

module _ (rest : ℕ → ℕ) (f : ℕ → ℕ → ℕ) where
  no_digits : (fuel b : ℕ) → digits rest f fuel zero b ≡ rest b
  no_digits zero b = refl
  no_digits (suc fuel) b = refl

  -- Any fuel from the word on gives the same digits.
  same_digits :
      (word other less more : ℕ)
      → word ≤ more
      → word ≤ less
      → digits rest f less word other ≡ digits rest f more word other
  same_digits zero other less more h k = no_digits less other ∙ sym (no_digits more other)
  same_digits (suc word) other zero more h k = absurd (omega (arith, k))
  same_digits (suc word) other (suc less) zero h k = absurd (omega (arith, h))
  same_digits (suc word) other (suc less) (suc more) h k =
      let halves =
        same_digits (suc word / 2) (other / 2) less more (omega (arith, h)) (omega (arith, k)) in
      ap (λ upper. upper * 2 + f (suc word % 2) (other % 2)) halves

  first_digit :
      (a b : ℕ)
      → bitwise rest f (suc a) b ≡ bitwise rest f (suc a / 2) (b / 2) * 2 + f (suc a % 2) (b % 2)
  first_digit a b =
      ap (λ upper. upper * 2 + f (suc a % 2) (b % 2))
        (same_digits (suc a / 2) (b / 2) a (suc a / 2) (omega arith) (omega arith))

pub or_step : (a b : ℕ) → bit_or a b ≡ bit_or (a / 2) (b / 2) * 2 + max (a % 2) (b % 2)
or_step zero b = simp bit_or-bitwise (omega arith)
or_step (suc a) b = simp bit_or-bitwise (first_digit (λ y. y) max a b)

pub and_step : (a b : ℕ) → bit_and a b ≡ bit_and (a / 2) (b / 2) * 2 + min (a % 2) (b % 2)
and_step zero b = simp bit_and-bitwise (omega arith)
and_step (suc a) b = simp bit_and-bitwise (first_digit (λ y. 0) min a b)

pub zero-and : (b : ℕ) → bit_and 0 b ≡ 0
zero-and b = bit_and-bitwise 0 b

pub zero-or : (b : ℕ) → bit_or 0 b ≡ b
zero-or b = bit_or-bitwise 0 b
