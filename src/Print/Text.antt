-- ===== src/Print/Text.antt =====
-- The text that `print_number` writes, os/rt-thread-nano/src/kservice.c.
use lltrisc_v.Prelude.{
  ℕ, zero, suc, ◌-◌, ◌≡◌, inl, inr, refl, ap, ◌∙◌, sym, true, false, ◌||◌, Option, none, some, List,
  [], ◌∷◌, ◌++◌, ◌==◌, if◌then◌else◌, ltb, length, arith, Bool-cases,
}
use lltrisc_v.Print.{
  zeropad, left, type_has, number_digits, Output, put, put_times, put_digits, sign_char, magnitude,
  positive_part, put_sign, put_before, put_after, print_number,
}

-- A text that is put, one character after the other.
abbrev pub put_text : (end : ℕ) → List ℕ → Output → Output
put_text end [] o = o
put_text end (c ∷ cs) o = put_text end cs (put end c o)

abbrev pub copies : (n c : ℕ) → List ℕ
copies zero c = []
copies (suc n) c = c ∷ copies n c

-- The characters in the order of reading.
abbrev pub backwards : List ℕ → List ℕ
backwards [] = []
backwards (c ∷ cs) = backwards cs ++ c ∷ []

put_text-append :
    (end : ℕ) (xs ys : List ℕ) (o : Output)
    → put_text end (xs ++ ys) o ≡ put_text end ys (put_text end xs o)
put_text-append end [] ys o = refl
put_text-append end (x ∷ xs) ys o = put_text-append end xs ys (put end x o)

put_times-copies : (end c n : ℕ) (o : Output) → put_times end c n o ≡ put_text end (copies n c) o
unfolding put_times
put_times-copies end c zero o = refl
put_times-copies end c (suc n) o = put_times-copies end c n (put end c o)

put_digits-backwards :
    (end : ℕ) (cs : List ℕ) (o : Output) → put_digits end cs o ≡ put_text end (backwards cs) o
unfolding put_digits
put_digits-backwards end [] o = refl
put_digits-backwards end (c ∷ cs) o =
    ap (put end c) (put_digits-backwards end cs o)
    ∙ sym (put_text-append end (backwards cs) (c ∷ []) o)

abbrev pub sign_text : Option ℕ → List ℕ
sign_text none = []
sign_text (some c) = c ∷ []

-- The digits with the zeros that the precision asks for; a precision of 0 leaves the digits out.
abbrev pub body_text : (tmp : List ℕ) (precision : ℕ) → List ℕ
body_text tmp precision =
    copies (positive_part precision - length tmp) 48
    ++ (if precision == 0 then [] else backwards tmp)

-- A number's text. The digits that count for the width are those of `tmp` or as many as the precision asks.
abbrev pub number_text : (s : Option ℕ) (tmp : List ℕ) (size precision type : ℕ) → List ℕ
number_text s tmp size precision type =
    let digits =
      if ltb (positive_part precision) (length tmp) then length tmp else positive_part precision in
    let fill = positive_part size - digits - length (sign_text s) in
    let body = body_text tmp precision in
    if type_has left type
    then sign_text s ++ body ++ copies fill 32
    else (if type_has zeropad type
        then sign_text s ++ copies fill 48 ++ body
        else copies fill 32 ++ sign_text s ++ body)

body_put :
    (end precision : ℕ) (tmp : List ℕ) (o : Output)
    → let digits =
        if ltb (positive_part precision) (length tmp)
        then length tmp
        else positive_part precision in
      let o4 = put_times end 48 (digits - length tmp) o in
      (if precision == 0 then o4 else put_digits end tmp o4)
      ≡ put_text end (body_text tmp precision) o
body_put end precision tmp o =
    let digits =
      if ltb (positive_part precision) (length tmp) then length tmp else positive_part precision in
    let zeros : digits - length tmp ≡ positive_part precision - length tmp = ground arith in
    let o4 = put_times end 48 (digits - length tmp) o in
    let first : o4 ≡ put_text end (copies (positive_part precision - length tmp) 48) o =
      put_times-copies end 48 (digits - length tmp) o
      ∙ ap (λ n. put_text end (copies n 48) o) zeros in
    let all = put_text-append end (copies (positive_part precision - length tmp) 48) in
    elim (Bool-cases (precision == 0)) [
      | inl e ↦ rw e (first ∙ sym (all [] o))
      | inr e ↦ rw e (
          put_digits-backwards end tmp o4
          ∙ ap (put_text end (backwards tmp)) first
          ∙ sym (all (backwards tmp) o))
    ]

-- The order of the parts around a body.
abbrev layout : (s : Option ℕ) (size type : ℕ) (body : List ℕ) → List ℕ
layout s size type body =
    let fill = size - length (sign_text s) in
    if type_has left type
    then sign_text s ++ body ++ copies fill 32
    else (if type_has zeropad type
        then sign_text s ++ copies fill 48 ++ body
        else copies fill 32 ++ sign_text s ++ body)

-- What `print_number` does around the body.
abbrev around : (end : ℕ) (s : Option ℕ) (size type : ℕ) (body : List ℕ) → Output → Output
around end s size type body o =
    let (size1, o1) = put_before end type s size o in
    let (size2, o2) = put_sign end s size1 o1 in
    let (size3, o3) = put_after end type size2 o2 in put_times end 32 size3 (put_text end body o3)

put_three :
    (end : ℕ) (xs ys zs : List ℕ) (o : Output)
    → put_text end (xs ++ ys ++ zs) o ≡ put_text end zs (put_text end ys (put_text end xs o))
put_three end xs ys zs o =
    put_text-append end (xs ++ ys) zs o ∙ ap (put_text end zs) (put_text-append end xs ys o)

put_sign-sign_text :
    (end : ℕ) (s : Option ℕ) (size : ℕ) (o : Output)
    → put_sign end s size o ≡ (size - length (sign_text s), put_text end (sign_text s) o)
put_sign-sign_text end none size o = ground arith
put_sign-sign_text end (some c) size o = refl

put_times-none : (end c n : ℕ) (o : Output) → n ≡ 0 → put_times end c n o ≡ o
unfolding put_times
put_times-none end c n o e = ap (λ n. put_times end c n o) e

before_kept :
    (end type size : ℕ) (s : Option ℕ) (o : Output)
    → (type_has zeropad type || type_has left type) ≡ true
    → put_before end type s size o ≡ (size, o)
unfolding put_before
before_kept end type size s o e = ground (arith, e)

before_spaces :
    (end type size : ℕ) (s : Option ℕ) (o : Output)
    → (type_has zeropad type || type_has left type) ≡ false
    → put_before end type s size o ≡ (0, put_times end 32 (size - length (sign_text s)) o)
unfolding put_before
before_spaces end type size none o e = rw e (ap (λ n. (0, put_times end 32 n o)) (omega arith))
before_spaces end type size (some c) o e = rw e refl

after_kept :
    (end type size : ℕ) (o : Output)
    → type_has left type ≡ true
    → put_after end type size o ≡ (size, o)
unfolding put_after
after_kept end type size o e = ground (arith, e)

after_filled :
    (end type size : ℕ) (o : Output)
    → type_has left type ≡ false
    → put_after end type size o
      ≡ (0, put_times end (if type_has zeropad type then 48 else 32) size o)
unfolding put_after
after_filled end type size o e = rw e refl

module _ (end size type : ℕ) (body : List ℕ) (s : Option ℕ) (o : Output) where
  abbrev fill : ℕ
  fill = size - length (sign_text s)

  abbrev Laid : Type 0
  Laid = around end s size type body o ≡ put_text end (layout s size type body) o

  around-left : type_has left type ≡ true → Laid
  around-left l =
      let kept = before_kept end type size s o (ground (arith, l)) in
      rw
        (
          kept,
          put_sign-sign_text end s size o,
          after_kept end type fill (put_text end (sign_text s) o) l,
          l,
        )
        (put_times-copies end 32 fill (put_text end body (put_text end (sign_text s) o))
          ∙ sym (put_three end (sign_text s) body (copies fill 32) o))

  around-zeropad : type_has left type ≡ false → type_has zeropad type ≡ true → Laid
  around-zeropad l z =
      let kept = before_kept end type size s o (ground (arith, z)) in
      let o2 = put_text end (sign_text s) o in
      rw (kept, put_sign-sign_text end s size o, after_filled end type fill o2 l, l, z)
        (put_times-none end 32 0 (put_text end body (put_times end 48 fill o2)) refl
          ∙ ap (put_text end body) (put_times-copies end 48 fill o2)
          ∙ sym (put_three end (sign_text s) (copies fill 48) body o))

  around-spaces : type_has left type ≡ false → type_has zeropad type ≡ false → Laid
  around-spaces l z =
      let filled = before_spaces end type size s o (ground (arith, l, z)) in
      let o1 = put_times end 32 fill o in
      let o2 = put_text end (sign_text s) o1 in
      let spent : 0 - length (sign_text s) ≡ 0 = omega arith in
      rw
        (
          filled,
          put_sign-sign_text end s 0 o1,
          after_filled end type (0 - length (sign_text s)) o2 l,
          l,
          z,
        )
        (put_times-none end 32 0 _ refl
          ∙ ap (put_text end body) (put_times-none end 32 (0 - length (sign_text s)) o2 spent)
          ∙ ap (λ x. put_text end body (put_text end (sign_text s) x))
              (put_times-copies end 32 fill o)
          ∙ sym (put_three end (copies fill 32) (sign_text s) body o))

  around-layout : Laid
  around-layout = elim (Bool-cases (type_has left type)) [
    | inl l ↦ around-left l
    | inr l ↦ elim (Bool-cases (type_has zeropad type)) [
      | inl z ↦ around-zeropad l z
      | inr z ↦ around-spaces l z
    ]
  ]

-- print_number puts a text, one character after the other.
pub print_number-put_text :
    (end num base size precision type : ℕ) (o : Output)
    → let tmp = number_digits (magnitude num type) base type in
      print_number end num base size precision type o
      ≡ put_text end (number_text (sign_char num type) tmp size precision type) o
unfolding print_number
print_number-put_text end num base size precision type o =
    let tmp = number_digits (magnitude num type) base type in
    let digits =
      if ltb (positive_part precision) (length tmp) then length tmp else positive_part precision in
    let s = sign_char num type in
    let before = put_before end type s (positive_part size - digits) o in
    let signed = put_sign end s before.0 before.1 in
    let after = put_after end type signed.0 signed.1 in
    ap (put_times end 32 after.0) (body_put end precision tmp after.1)
    ∙ around-layout end (positive_part size - digits) type (body_text tmp precision) s o
