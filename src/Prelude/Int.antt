-- ===== src/Prelude/Int.antt =====
-- Go's `int`, as far as the code compares and prints it: no sum of two is ever formed.
use mathlib.Core.Bool.{Bool, true, false}
use mathlib.Core.Logic.{◌↔◌}
use mathlib.Core.Path.{◌≡◌}
use Prim.Native.Nat.{ℕ, zero, suc}
use native.Mathlib.Omega.{arith}
use panda_k8s.Prelude.Tests.{nat_eq, ltb}

-- `negsuc n` is -(n + 1).
pub data ℤ : Type 0 where
  pos : ℕ → ℤ
  negsuc : ℕ → ℤ

abbrev pub int_eq : ℤ → ℤ → Bool
int_eq (pos m) (pos n) = nat_eq m n
int_eq (negsuc m) (negsuc n) = nat_eq m n
int_eq _ _ = false

pub int_eq_iff : (a b : ℤ) → (int_eq a b ≡ true) ↔ (a ≡ b)
int_eq_iff a b = ground arith

-- `n > 0`
abbrev pub is_positive : ℤ → Bool
is_positive (pos zero) = false
is_positive (pos (suc n)) = true
is_positive (negsuc n) = false

-- `m < n`
abbrev pub int_lt : ℤ → ℤ → Bool
int_lt (pos m) (pos n) = ltb m n
int_lt (pos m) (negsuc n) = false
int_lt (negsuc m) (pos n) = true
int_lt (negsuc m) (negsuc n) = ltb n m

pub int_lt_asymmetric : (a b : ℤ) → int_lt a b ≡ true → int_lt b a ≡ false
int_lt_asymmetric a b h = ground arith

pub int_lt_transitive : (a b c : ℤ) → int_lt b a ≡ false → int_lt c b ≡ false → int_lt c a ≡ false
int_lt_transitive a b c h k = ground arith
