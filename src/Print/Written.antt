-- ===== src/Print/Written.antt =====
-- What stands in memory after `print_number`, os/rt-thread-nano/src/kservice.c.
use lltrisc_v.Prelude.{
  ℕ, zero, suc, ◌+◌, ◌-◌, ◌%◌, ◌/◌, ◌^◌, ◌<◌, ◌≤◌, ◌≡◌, ◌∙◌, ◌⊎◌, inl, inr, refl, ap, List, [], ◌∷◌,
  ◌++◌, ◌==◌, if◌then◌else◌, ltb, length, get_or, arith, ℤ, pos, negsuc, Bool, update,
}
use lltrisc_v.Memory.{Memory}
use lltrisc_v.Print.{number_digits, put, sign_char, magnitude, print_number}
use lltrisc_v.Print.Text.{
  put_text, sign_text, number_text, copies, backwards, print_number-put_text,
}
use lltrisc_v.Print.Bounds.{put_text-inside}

-- Is the bit of the flags set? SIGN, PLUS, SPACE, LEFT and ZEROPAD are bits 1, 2, 3, 4 and 0.
abbrev pub asks : (type bit : ℕ) → Bool
asks type bit = type / 2 ^ bit % 2 == 1

-- The integer that a word stands for, with SIGN in two's complement.
abbrev pub integer : (num type : ℕ) → ℤ
integer num type =
    if asks type 1
    then (if ltb num (2 ^ 31) then pos num else negsuc (2 ^ 32 - num - 1))
    else pos num

abbrev pub absolute : ℤ → ℕ
absolute (pos n) = n
absolute (negsuc n) = n + 1

-- The sign that is shown: of a negative integer, and of others where the flags ask for one.
abbrev pub shown_sign : ℤ → (type : ℕ) → List ℕ
shown_sign (negsuc n) type = 45 ∷ []
shown_sign (pos n) type =
    if asks type 1
    then (if asks type 2 then 43 ∷ [] else (if asks type 3 then 32 ∷ [] else []))
    else []

-- An `int` below 0 asks for nothing.
abbrev pub asked_for : ℕ → ℕ
asked_for n = if ltb n (2 ^ 31) then n else 0

-- The text of the sign and the digits, the last digit first in `digits`: zeros up to the precision, which at 0
-- leaves out the digits, and filling up to the size.
abbrev pub shown : (sign digits : List ℕ) → (size precision type : ℕ) → List ℕ
shown sign digits size precision type =
    let wide =
      if ltb (asked_for precision) (length digits) then length digits else asked_for precision in
    let fill = asked_for size - wide - length sign in
    let body =
      copies (asked_for precision - length digits) 48
      ++ (if precision == 0 then [] else backwards digits) in
    if asks type 4
    then sign ++ body ++ copies fill 32
    else (if asks type 0 then sign ++ copies fill 48 ++ body else copies fill 32 ++ sign ++ body)

sign_same :
    (num type : ℕ)
    → num < 2 ^ 32
    → sign_text (sign_char num type) ≡ shown_sign (integer num type) type
sign_same num type h = ground arith

magnitude_same : (num type : ℕ) → num < 2 ^ 32 → magnitude num type ≡ absolute (integer num type)
magnitude_same num type h = ground arith

put_text-get :
    (end : ℕ) (cs : List ℕ) (buf : ℕ) (m : Memory) (i : ℕ)
    → i < length cs
    → buf + i < end
    → (put_text end cs (buf, m)).1 (buf + i) ≡ get_or cs i 0
unfolding put
put_text-get end [] buf m i h room = absurd (omega (arith, h))
put_text-get end (c ∷ cs) buf m zero h room =
    let m1 : Memory = if ltb buf end then update m buf c else m in
    let kept = (put_text-inside end cs (buf + 1) m1).1 (buf + 0) (inl (omega arith)) in
    let here : m1 (buf + 0) ≡ c = ground (arith, room) in kept ∙ here
put_text-get end (c ∷ cs) buf m (suc i) h room =
    let m1 : Memory = if ltb buf end then update m buf c else m in
    let place : buf + suc i ≡ buf + 1 + i = omega arith in
    ap (put_text end cs (buf + 1, m1)).1 place
    ∙ put_text-get end cs (buf + 1) m1 i (omega (arith, h)) (omega (arith, room))

put_text-behind :
    (end : ℕ) (cs : List ℕ) (buf : ℕ) (m : Memory) (a : ℕ)
    → buf + length cs ≤ a
    → (put_text end cs (buf, m)).1 a ≡ m a
unfolding put
put_text-behind end [] buf m a h = refl
put_text-behind end (c ∷ cs) buf m a h =
    let m1 : Memory = if ltb buf end then update m buf c else m in
    let here : m1 a ≡ m a = ground (arith, h) in
    put_text-behind end cs (buf + 1) m1 a (omega (arith, h)) ∙ here

-- print_number of a word, for the integer that it stands for, in two's complement with SIGN: the memory from
-- `buf` on and before `end` holds the text of its sign and of the digits of its absolute value, with zeros up to
-- the precision and filled up to the size: by spaces behind (LEFT), by zeros between sign and digits (ZEROPAD),
-- or by spaces before. A precision of 0 leaves out the digits. The rest of the memory is as it was, and the
-- place behind the text is returned, also where the text goes beyond `end`.
pub print_number-text :
    (end num base size precision type buf : ℕ) (m : Memory)
    → num < 2 ^ 32
    → let z = integer num type in
      let text =
        shown (shown_sign z type) (number_digits (absolute z) base type) size precision type in
      let (buf', m') = print_number end num base size precision type (buf, m) in
      (buf' ≡ buf + length text)
      × ((i : ℕ) → i < length text → buf + i < end → m' (buf + i) ≡ get_or text i 0)
      × ((a : ℕ) → (a < buf) ⊎ ((end ≤ a) ⊎ (buf + length text ≤ a)) → m' a ≡ m a)
print_number-text end num base size precision type buf m h =
    let z = integer num type in
    let text =
      shown (shown_sign z type) (number_digits (absolute z) base type) size precision type in
    let same : number_text (sign_char num type) (number_digits (magnitude num type) base type) size
          precision type
        ≡ text =
      ap (λ s. shown s (number_digits (magnitude num type) base type) size precision type)
        (sign_same num type h)
      ∙ ap (λ n. shown (shown_sign z type) (number_digits n base type) size precision type)
          (magnitude_same num type h) in
    let run =
      print_number-put_text end num base size precision type (buf, m)
      ∙ ap (λ t. put_text end t (buf, m)) same in
    let (place, kept) = put_text-inside end text buf m in
    rw run (place, (λ i few room. put_text-get end text buf m i few room), outside text kept)
  where
    outside :
        (text : List ℕ)
        → ((a : ℕ) → (a < buf) ⊎ (end ≤ a) → (put_text end text (buf, m)).1 a ≡ m a)
        → (a : ℕ) → (a < buf) ⊎ ((end ≤ a) ⊎ (buf + length text ≤ a))
        → (put_text end text (buf, m)).1 a ≡ m a
    outside text kept a (inl before) = kept a (inl before)
    outside text kept a (inr (inl over)) = kept a (inr over)
    outside text kept a (inr (inr behind)) = put_text-behind end text buf m a behind
