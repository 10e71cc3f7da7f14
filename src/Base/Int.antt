-- ===== src/Base/Int.antt =====
-- Integers over the native numbers, for C results of type `int` that may be negative.
use Prim.Native.Nat.{ℕ, suc, ◌-◌, ◌/◌, ◌≤◌, compare, Ordering}
use mathlib.Core.Path.{◌≡◌}
use native.Mathlib.Omega.{arith}

-- `negsuc n` is -(n + 1).
pub data ℤ : Type 0 where
  pos : ℕ → ℤ
  negsuc : ℕ → ℤ

-- a - b, as an integer.
abbrev pub sub_ℕ : ℕ → ℕ → ℤ
sub_ℕ a b = elim (compare a b) [ Ordering.lt ↦ negsuc (b - a - 1) | _ ↦ pos (a - b) ]

pub sub_ℕ-eq-pos : (a b : ℕ) → b ≤ a → sub_ℕ a b ≡ pos (a - b)
sub_ℕ-eq-pos a b h = ground arith

-- The quotient with a number, which C rounds to 0.
abbrev pub over : ℤ → ℕ → ℤ
over (pos n) k = pos (n / k)
over (negsuc n) k = sub_ℕ 0 (suc n / k)
