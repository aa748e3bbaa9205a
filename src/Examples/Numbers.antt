-- ===== src/Examples/Numbers.antt =====
-- The theorems on the printing of numbers, at -42 in decimal, with a width of 6 and no precision given.
use lltrisc_v.Prelude.{
  get_or, ℕ, ◌+◌, ◌-◌, ◌^◌, ◌≤◌, ◌<◌, ◌≡◌, ◌⊎◌, refl, length, arith, some, none, ◌==◌,
  if◌then◌else◌, [], ◌∷◌,
}
use lltrisc_v.Memory.{Memory}
use lltrisc_v.Print.{
  sign, sign_char, magnitude, number_digits, positive_part, print_number, make_digits, skip_atoi,
}
use lltrisc_v.Print.Digits.{number_of, radix_of, number_digits-value}
use lltrisc_v.Print.Text.{number_text, sign_text}
use lltrisc_v.Print.Written.{integer, absolute, shown, shown_sign, print_number-text}
use lltrisc_v.Print.Bounds.{larger, print_number-inside}

abbrev minus_42 : ℕ
minus_42 = 2 ^ 32 - 42

abbrev zeros : Memory
zeros = λ a. 0

text_of_minus_42 :
    shown
      (shown_sign (integer minus_42 sign) sign)
      (number_digits (absolute (integer minus_42 sign)) 10 sign)
      6
      (2 ^ 32 - 1)
      sign
    ≡ 32 ∷ 32 ∷ 32 ∷ 45 ∷ 52 ∷ 50 ∷ []
unfolding make_digits
text_of_minus_42 = refl

octal_as_hexadecimal : number_digits 63 8 0 ≡ number_digits 63 16 0
unfolding make_digits
octal_as_hexadecimal = refl

precision_0 : number_text none (number_digits 42 10 sign) 0 0 sign ≡ []
unfolding make_digits
precision_0 = refl

-- `12` and a letter.
atoi_of_12 :
    skip_atoi 9 0 0 (λ a. if a == 0 then 49 else (if a == 1 then 50 else 100)) ≡ some (12, 2)
unfolding skip_atoi
atoi_of_12 = refl

number_digits-value_example :
    (number_of sign (radix_of 10) (number_digits 42 10 sign) ≡ 42)
    × (length (number_digits 42 10 sign) ≤ 16)
number_digits-value_example = number_digits-value 42 10 sign (omega arith)

print_number-text_example :
    let text =
      shown
        (shown_sign (integer minus_42 sign) sign)
        (number_digits (absolute (integer minus_42 sign)) 10 sign)
        6
        (2 ^ 32 - 1)
        sign in
    let (buf', m') = print_number 1004 minus_42 10 6 (2 ^ 32 - 1) sign (1000, zeros) in
    (buf' ≡ 1000 + length text)
    × ((i : ℕ) → i < length text → 1000 + i < 1004 → m' (1000 + i) ≡ get_or text i 0)
    × ((a : ℕ) → (a < 1000) ⊎ ((1004 ≤ a) ⊎ (1000 + length text ≤ a)) → m' a ≡ zeros a)
print_number-text_example =
    print_number-text 1004 minus_42 10 6 (2 ^ 32 - 1) sign 1000 zeros (omega arith)

print_number-inside_example :
    let tmp = number_digits (magnitude minus_42 sign) 10 sign in
    let (buf', m') = print_number 1004 minus_42 10 6 (2 ^ 32 - 1) sign (1000, zeros) in
    (buf'
      ≡ 1000
        + larger (positive_part 6) (
            length (sign_text (sign_char minus_42 sign))
            + larger (positive_part (2 ^ 32 - 1)) (length tmp)))
    × ((a : ℕ) → (a < 1000) ⊎ (1004 ≤ a) → m' a ≡ zeros a)
print_number-inside_example =
    print_number-inside 1004 minus_42 10 6 (2 ^ 32 - 1) sign 1000 zeros (omega arith)
