-- ===== src/Base/Int.antt =====
-- Signed integers over the native numbers: the values of Rust's `i32`, `i64`, `i128` and `BigInt`.
use Prim.Native.Nat.{ℕ, zero, suc, ◌+◌, ◌-◌, ◌*◌, ◌^◌, compare, Ordering}
use mathlib.Core.Bool.{Bool, true, false}
use native.Mathlib.Decide.{ℕ_discrete}
use retroshade.Base.Tests.{Eq, eq_of_discrete}

-- `negsuc n` is -(n + 1).
pub data ℤ : Type 0 where
  pos : ℕ → ℤ
  negsuc : ℕ → ℤ

unfoldable pub ℤ-discrete : Discrete ℤ
ℤ-discrete = hlevel ℕ_discrete

instance abbrev pub ℤ-eq : Eq ℤ
ℤ-eq = eq_of_discrete ℤ-discrete

-- The product with a number.
infixl 70 ◌*ℕ◌
abbrev pub ◌*ℕ◌ : ℤ → ℕ → ℤ
pos n *ℕ m = pos (n * m)
negsuc n *ℕ zero = pos 0
negsuc n *ℕ suc m = negsuc ((n + 1) * suc m - 1)

-- The sum with a number.
infixl 65 ◌+ℕ◌ ◌+ℤ◌
abbrev pub ◌+ℕ◌ : ℤ → ℕ → ℤ
pos n +ℕ m = pos (n + m)
negsuc n +ℕ m = elim (compare n m) [ Ordering.lt ↦ pos (m - n - 1) | _ ↦ negsuc (n - m) ]

-- The sum.
unfoldable pub ◌+ℤ◌ : ℤ → ℤ → ℤ
pos n +ℤ pos m = pos (n + m)
pos n +ℤ negsuc m = negsuc m +ℕ n
negsuc n +ℤ pos m = negsuc n +ℕ m
negsuc n +ℤ negsuc m = negsuc (n + m + 1)

leb : ℕ → ℕ → Bool
leb a b = elim (compare a b) [ Ordering.gt ↦ false | _ ↦ true ]

-- The range of `i128`.
unfoldable pub is_i128 : ℤ → Bool
unfolding leb
is_i128 (pos n) = leb n (2 ^ 127 - 1)
is_i128 (negsuc n) = leb n (2 ^ 127 - 1)
