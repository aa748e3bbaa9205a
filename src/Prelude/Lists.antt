-- ===== src/Prelude/Lists.antt =====
-- Lists of native numbers: membership as a test, removal, and lengths.
use Prim.Native.Nat.{ℕ, zero, suc, ◌+◌}
use mathlib.Core.Path.{◌≡◌, refl}
use mathlib.Core.Logic.{◌≢◌}
use mathlib.Core.Bool.{Bool, true, false, not, ◌&&◌, ◌||◌}
use mathlib.Core.List.{List, [], ◌∷◌, ◌++◌}
use native.Mathlib.Omega.{arith}
use lltrisc_v.Prelude.Tests.{◌==◌, if◌then◌else◌}

module _ {ℓ} {A : Type ℓ} where
  abbrev pub length : List A → ℕ
  length [] = 0
  length (x ∷ xs) = suc (length xs)

  abbrev pub is_empty : List A → Bool
  is_empty [] = true
  is_empty (x ∷ xs) = false

  abbrev pub get_or : List A → ℕ → A → A
  get_or [] i d = d
  get_or (x ∷ xs) zero d = x
  get_or (x ∷ xs) (suc i) d = get_or xs i d

  pub length-append : (xs ys : List A) → length (xs ++ ys) ≡ length xs + length ys
  length-append [] ys = omega arith
  length-append (x ∷ xs) ys = omega (arith, length-append xs ys)

-- Is the number in the list?
abbrev pub mem : ℕ → List ℕ → Bool
mem a [] = false
mem a (x ∷ xs) = (x == a) || mem a xs

-- The list less the first occurrence of the number.
abbrev pub remove : ℕ → List ℕ → List ℕ
remove a [] = []
remove a (x ∷ xs) = if x == a then xs else x ∷ remove a xs

abbrev pub nodup : List ℕ → Bool
nodup [] = true
nodup (x ∷ xs) = not (mem x xs) && nodup xs

pub mem-append : (a : ℕ) (xs ys : List ℕ) → mem a (xs ++ ys) ≡ (mem a xs || mem a ys)
mem-append a [] ys = refl
mem-append a (x ∷ xs) ys = ground (arith, mem-append a xs ys)

pub mem-remove_ne : (a b : ℕ) (xs : List ℕ) → a ≢ b → mem a (remove b xs) ≡ mem a xs
mem-remove_ne a b [] h = refl
mem-remove_ne a b (x ∷ xs) h = ground (arith, mem-remove_ne a b xs h)

pub mem-remove_self : (a : ℕ) (xs : List ℕ) → nodup xs ≡ true → mem a (remove a xs) ≡ false
mem-remove_self a [] h = refl
mem-remove_self a (x ∷ xs) h = ground (arith, mem-remove_self a xs)

pub remove_absent : (a : ℕ) (xs : List ℕ) → mem a xs ≡ false → remove a xs ≡ xs
remove_absent a [] h = refl
remove_absent a (x ∷ xs) h = ground (arith, remove_absent a xs)

pub nodup-remove : (a : ℕ) (xs : List ℕ) → nodup xs ≡ true → nodup (remove a xs) ≡ true
nodup-remove a [] h = refl
nodup-remove a (x ∷ xs) h = ground (arith, nodup-remove a xs, mem-remove_ne x a xs)

pub nodup-snoc :
    (a : ℕ) (xs : List ℕ) → nodup xs ≡ true → mem a xs ≡ false → nodup (xs ++ a ∷ []) ≡ true
nodup-snoc a [] h m = refl
nodup-snoc a (x ∷ xs) h m = ground (arith, nodup-snoc a xs, mem-append x xs (a ∷ []))
