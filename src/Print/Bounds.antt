-- ===== src/Print/Bounds.antt =====
-- Where `print_number` writes, os/rt-thread-nano/src/kservice.c.
use lltrisc_v.Prelude.{
  length-append, ℕ, zero, suc, ◌+◌, ◌-◌, ◌≤◌, ◌<◌, ◌≡◌, ◌≢◌, ◌⊎◌, refl, ap, ◌∙◌, false, Option,
  List, [], ◌∷◌, ◌++◌, ◌==◌, if◌then◌else◌, ltb, update, length, arith,
}
use lltrisc_v.Memory.{Memory}
use lltrisc_v.Print.{number_digits, put, sign_char, magnitude, positive_part, print_number}
use lltrisc_v.Print.Text.{
  put_text, copies, backwards, sign_text, body_text, number_text, print_number-put_text,
}

length-copies : (n c : ℕ) → length (copies n c) ≡ n
length-copies zero c = refl
length-copies (suc n) c = ap suc (length-copies n c)

length-backwards : (cs : List ℕ) → length (backwards cs) ≡ length cs
length-backwards [] = refl
length-backwards (c ∷ cs) =
    omega (arith, length-append (backwards cs) (c ∷ []), length-backwards cs)

length-three : (xs ys zs : List ℕ) → length (xs ++ ys ++ zs) ≡ length xs + length ys + length zs
length-three xs ys zs = omega (arith, length-append (xs ++ ys) zs, length-append xs ys)

-- The larger of two numbers.
abbrev pub larger : ℕ → ℕ → ℕ
larger a b = if ltb a b then b else a

length-body_text :
    (tmp : List ℕ) (precision : ℕ)
    → precision ≢ 0
    → length (body_text tmp precision) ≡ larger (positive_part precision) (length tmp)
length-body_text tmp precision n =
    let p = positive_part precision in
    let test : (precision == 0) ≡ false = ground (arith, n) in
    let sum = length-append (copies (p - length tmp) 48) (backwards tmp) in
    rw test (ground (arith, sum, length-copies (p - length tmp) 48, length-backwards tmp))

length-number_text :
    (s : Option ℕ) (tmp : List ℕ) (size precision type : ℕ)
    → precision ≢ 0
    → length (number_text s tmp size precision type)
      ≡ larger
          (positive_part size)
          (length (sign_text s) + larger (positive_part precision) (length tmp))
length-number_text s tmp size precision type n =
    let digits = larger (positive_part precision) (length tmp) in
    let fill = positive_part size - digits - length (sign_text s) in
    let body = body_text tmp precision in
    ground (
      arith,
      length-body_text tmp precision n,
      length-copies fill 32,
      length-copies fill 48,
      length-three (sign_text s) body (copies fill 32),
      length-three (sign_text s) (copies fill 48) body,
      length-three (copies fill 32) (sign_text s) body,
    )

pub put_text-inside :
    (end : ℕ) (cs : List ℕ) (buf : ℕ) (m : Memory)
    → let (buf', m') = put_text end cs (buf, m) in
      (buf' ≡ buf + length cs) × ((a : ℕ) → (a < buf) ⊎ (end ≤ a) → m' a ≡ m a)
unfolding put
put_text-inside end [] buf m = (omega arith, λ a h. refl)
put_text-inside end (c ∷ cs) buf m =
    let m1 : Memory = if ltb buf end then update m buf c else m in
    let (place, same) = put_text-inside end cs (buf + 1) m1 in
    (
      omega (arith, place),
      λ a h. let here : m1 a ≡ m a = ground (arith, h) in same a (ground (arith, h)) ∙ here,
    )

-- print_number with a precision other than 0 returns the place that follows on as many characters as the size
-- asks for, or as the sign and the digits take, or as the sign and the precision take, whichever is most; it
-- writes only from `buf` on and before `end`.
pub print_number-inside :
    (end num base size precision type buf : ℕ) (m : Memory)
    → precision ≢ 0
    → let tmp = number_digits (magnitude num type) base type in
      let (buf', m') = print_number end num base size precision type (buf, m) in
      (buf'
        ≡ buf
          + larger (positive_part size) (
              length (sign_text (sign_char num type))
              + larger (positive_part precision) (length tmp)))
      × ((a : ℕ) → (a < buf) ⊎ (end ≤ a) → m' a ≡ m a)
print_number-inside end num base size precision type buf m n =
    let tmp = number_digits (magnitude num type) base type in
    let s = sign_char num type in
    let text = number_text s tmp size precision type in
    let (place, same) = put_text-inside end text buf m in
    let width = length-number_text s tmp size precision type n in
    rw (print_number-put_text end num base size precision type (buf, m))
      (place ∙ ap (λ n. buf + n) width, same)
