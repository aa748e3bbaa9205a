-- ===== src/Prelude/Ints.antt =====
-- The signed results of the C code, over the native numbers.
use Prim.Native.Nat.{ℕ, zero, suc, ◌-◌}
use mathlib.Core.Bool.{Bool, true, false}
use lltrisc_v.Prelude.Tests.{ltb, if◌then◌else◌}

pub data ℤ : Type 0 where
  pos : ℕ → ℤ
  negsuc : ℕ → ℤ

-- `a - b` on `int`
infix 60 ◌⊖◌
abbrev pub ◌⊖◌ : ℕ → ℕ → ℤ
a ⊖ b = if ltb a b then negsuc (b - a - 1) else pos (a - b)

abbrev pub is_zero : ℤ → Bool
is_zero (pos zero) = true
is_zero (pos (suc n)) = false
is_zero (negsuc n) = false

abbrev pub is_negative : ℤ → Bool
is_negative (pos n) = false
is_negative (negsuc n) = true
