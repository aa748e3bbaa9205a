-- ===== src/Print/Digits.antt =====
-- The digits of a number, os/rt-thread-nano/src/kservice.c.
use native.Mathlib.Nat.{pow-suc}
use lltrisc_v.Prelude.{
  ℕ, zero, suc, ◌+◌, ◌-◌, ◌*◌, ◌/◌, ◌%◌, ◌^◌, ◌≤◌, ◌<◌, ◌≡◌, inl, inr, List, [], ◌∷◌, ◌==◌,
  if◌then◌else◌, ltb, length, arith, Bool-cases,
}
use lltrisc_v.Print.{type_has, large, divide, digit_char, make_digits, number_digits}

-- What a digit stands for.
abbrev pub digit_value : (type c : ℕ) → ℕ
digit_value type c = if ltb c 58 then c - 48 else (if type_has large type then c - 55 else c - 87)

-- The number that digits stand for, the last digit first.
abbrev pub number_of : (type radix : ℕ) → List ℕ → ℕ
number_of type radix [] = 0
number_of type radix (c ∷ cs) = digit_value type c + radix * number_of type radix cs

digit_value-digit_char : (type d : ℕ) → d < 16 → digit_value type (digit_char type d) ≡ d
digit_value-digit_char type d h = elim (Bool-cases (type_has large type)) [
  | inl e ↦ rw e (ground (arith, h))
  | inr e ↦ rw e (ground (arith, h))
]

-- The radix that `divide` takes for a base: a base of 8 is taken for 16.
abbrev pub radix_of : ℕ → ℕ
radix_of base = if base == 10 then 10 else 16

-- Room for a number below a power of ten
number_of-make_digits :
    (room num base type : ℕ)
    → num < 10 ^ room
    → number_of type (radix_of base) (make_digits room num base type) ≡ num
unfolding make_digits
number_of-make_digits zero num base type h = omega (arith, h)
number_of-make_digits (suc room) num base type h =
    let power : 10 ^ suc room ≡ 10 ^ room * 10 = pow-suc 10 room in
    elim (Bool-cases (num == 0)) [
      | inl e ↦ ground (arith, e)
      | inr e ↦ elim (Bool-cases (base == 10)) [
        | inl b ↦
            let rest = number_of-make_digits room (num / 10) base type (omega (arith, h, power)) in
            let here = digit_value-digit_char type (num % 10) (omega arith) in
            rw (e, b, here, rest) (omega arith)
        | inr b ↦
            let rest = number_of-make_digits room (num / 16) base type (omega (arith, h, power)) in
            let here = digit_value-digit_char type (num % 16) (omega arith) in
            rw (e, b, here, rest) (omega arith)
      ]
    ]

make_digits-length : (room num base type : ℕ) → length (make_digits room num base type) ≤ room
unfolding make_digits
make_digits-length zero num base type = omega arith
make_digits-length (suc room) num base type = elim (Bool-cases (num == 0)) [
  | inl e ↦ rw e (omega arith)
  | inr e ↦
      let (digit, n) = divide num base in rw e (omega (arith, make_digits-length room n base type))
]

-- The characters of a number below 2^32 and 16 of them at most, read with the radix that is used, give the
-- number back.
pub number_digits-value :
    (num base type : ℕ)
    → num < 2 ^ 32
    → (number_of type (radix_of base) (number_digits num base type) ≡ num)
      × (length (number_digits num base type) ≤ 16)
number_digits-value num base type h = elim (Bool-cases (num == 0)) [
  | inl e ↦ rw e (ground (arith, e), omega arith)
  | inr e ↦ rw e (
    number_of-make_digits 16 num base type (omega (arith, h)),
    make_digits-length 16 num base type,
  )
]
