-- ===== src/Print.antt =====
-- The printing of numbers, os/rt-thread-nano/src/kservice.c, with RT_PRINTF_PRECISION and without
-- RT_PRINTF_LONGLONG and RT_PRINTF_SPECIAL, as the file sets them. A word of C is its bit pattern. Of the sizes
-- the positive part is kept: the source tests them only for being above 0.
pub mod Digits
pub mod Text
pub mod Bounds
pub mod Written
use lltrisc_v.Prelude.{
  ℕ, zero, suc, ◌+◌, ◌-◌, ◌*◌, ◌/◌, ◌%◌, ◌^◌, Bool, true, false, not, ◌&&◌, ◌||◌, Option, none,
  some, List, [], ◌∷◌, ◌==◌, if◌then◌else◌, ltb, leb, update, length,
}
use lltrisc_v.Memory.{Memory}

-- ZEROPAD, SIGN, PLUS, SPACE, LEFT, LARGE
abbrev pub zeropad : ℕ
zeropad = 1

abbrev pub sign : ℕ
sign = 2

abbrev pub plus : ℕ
plus = 4

abbrev pub space : ℕ
space = 8

abbrev pub left : ℕ
left = 16

abbrev pub large : ℕ
large = 64

-- `type & flag`
abbrev pub type_has : (flag type : ℕ) → Bool
type_has flag type = type / flag % 2 == 1

-- `divide`: the digit and the rest
abbrev pub divide : (n base : ℕ) → ℕ × ℕ
divide n base = if base == 10 then (n % 10, n / 10) else (n % 16, n / 16)

-- `small_digits` and `large_digits`
abbrev pub digit_char : (type digit : ℕ) → ℕ
digit_char type digit =
    if ltb digit 10 then 48 + digit else (if type_has large type then 55 + digit else 87 + digit)

-- The loop of `print_number` that fills `tmp`, at most `room` characters of it.
unfoldable pub make_digits : (room num base type : ℕ) → List ℕ
make_digits zero num base type = []
make_digits (suc room) num base type =
    let (res, n) = divide num base in
    let rest = make_digits room n base type in if num == 0 then [] else digit_char type res ∷ rest

-- `tmp`, which has room for 16 characters; the last digit is the first.
abbrev pub number_digits : (num base type : ℕ) → List ℕ
number_digits num base type = if num == 0 then 48 ∷ [] else make_digits 16 num base type

-- The output: `buf` and the memory.
abbrev pub Output : Type 0
Output = ℕ × Memory

-- `if (buf < end) *buf = c; ++buf`
unfoldable pub put : (end c : ℕ) → Output → Output
put end c (buf, m) = (buf + 1, (if ltb buf end then update m buf c else m))

-- A loop that puts a character `n` times.
unfoldable pub put_times : (end c n : ℕ) → Output → Output
put_times end c zero o = o
put_times end c (suc n) o = put_times end c n (put end c o)

-- The loop that puts `tmp` from its last character to its first.
unfoldable pub put_digits : (end : ℕ) → List ℕ → Output → Output
put_digits end [] o = o
put_digits end (c ∷ cs) o = put end c (put_digits end cs o)

-- `num < 0` and `-num` of a `long`
abbrev pub is_below_0 : ℕ → Bool
is_below_0 num = leb (2 ^ 31) num

abbrev pub negated : ℕ → ℕ
negated num = (2 ^ 32 - num) % 2 ^ 32

-- The character for the sign, if there is one.
abbrev pub sign_char : (num type : ℕ) → Option ℕ
sign_char num type =
    if type_has sign type
    then (if is_below_0 num
        then some 45
        else (if type_has plus type
            then some 43
            else (if type_has space type then some 32 else none)))
    else none

abbrev pub magnitude : (num type : ℕ) → ℕ
magnitude num type = if type_has sign type && is_below_0 num then negated num else num

-- What is above 0 of an `int`.
abbrev pub positive_part : ℕ → ℕ
positive_part n = if ltb n (2 ^ 31) then n else 0

-- A sign is put and counted.
abbrev pub put_sign : (end : ℕ) → Option ℕ → (size : ℕ) → Output → ℕ × Output
put_sign end none size o = (size, o)
put_sign end (some c) size o = (size - 1, put end c o)

-- The spaces before the sign, and the size that is left.
unfoldable pub put_before : (end type : ℕ) → Option ℕ → (size : ℕ) → Output → ℕ × Output
put_before end type s size o =
    let spaces : ℕ = elim s [ none ↦ size | some c ↦ size - 1 ] in
    if not (type_has zeropad type || type_has left type)
    then (0, put_times end 32 spaces o)
    else (size, o)

-- The padding behind the sign, and the size that is left.
unfoldable pub put_after : (end type size : ℕ) → Output → ℕ × Output
put_after end type size o =
    let c = if not (type_has left type) && type_has zeropad type then 48 else 32 in
    if not (type_has left type) then (0, put_times end c size o) else (size, o)

-- `print_number`, of `size` characters at least
unfoldable pub print_number : (end num base size precision type : ℕ) → Output → Output
print_number end num base size precision type o =
    let tmp = number_digits (magnitude num type) base type in
    let i = length tmp in
    let digits = if ltb (positive_part precision) i then i else positive_part precision in
    let (size1, o1) = put_before end type (sign_char num type) (positive_part size - digits) o in
    let (size2, o2) = put_sign end (sign_char num type) size1 o1 in
    let (size3, o3) = put_after end type size2 o2 in
    let o4 = put_times end 48 (digits - i) o3 in
    let o5 = if precision == 0 then o4 else put_digits end tmp o4 in put_times end 32 size3 o5

-- `skip_atoi`, on `fuel` characters at most: the number and the place behind its digits
unfoldable pub skip_atoi : (fuel i s : ℕ) → Memory → Option (ℕ × ℕ)
skip_atoi zero i s m = none
skip_atoi (suc fuel) i s m =
    let rest = skip_atoi fuel ((i * 10 + m s - 48) % 2 ^ 32) (s + 1) m in
    if leb 48 (m s) && leb (m s) 57 then rest else some (i, s)
