-- ===== src/Base/Int.antt =====
-- Signed integers, as the values of Go's int64 and of PostgreSQL's bigint.
use mathlib.Core.Path.{◌≡◌}
use mathlib.Core.Logic.{◌↔◌}
use mathlib.Core.Bool.{Bool, true, false}
use Prim.Native.Nat.{ℕ, zero, suc, ◌+◌, ◌^◌, ◌-◌}
unfoldable use native.Mathlib.Decide.{ℕ_discrete}
use postgres_controller_back.Base.Tests.{same, same_iff}

-- `negsuc n` is -(n + 1).
pub data ℤ : Type 0 where
  pos : ℕ → ℤ
  negsuc : ℕ → ℤ

unfoldable pub ℤ-discrete : Discrete ℤ
unfolding ℕ_discrete
ℤ-discrete = hlevel ℕ_discrete

unfoldable pub int_eq : ℤ → ℤ → Bool
unfolding ℤ-discrete
int_eq a b = same ℤ-discrete a b

pub int_eq_iff : (a b : ℤ) → (int_eq a b ≡ true) ↔ (a ≡ b)
unfolding int_eq
int_eq_iff a b = same_iff ℤ-discrete a b

abbrev pub abs : ℤ → ℕ
abs (pos n) = n
abs (negsuc n) = suc n

abbrev pub max_int64 : ℕ
max_int64 = 2 ^ 63 - 1

-- `m - n` of two numbers.
unfoldable pub sub_nat : ℕ → ℕ → ℤ
sub_nat m zero = pos m
sub_nat zero (suc n) = negsuc n
sub_nat (suc m) (suc n) = sub_nat m n

infixl 70 ◌+ℤ◌
unfoldable pub ◌+ℤ◌ : ℤ → ℤ → ℤ
unfolding sub_nat
pos m +ℤ pos n = pos (m + n)
pos m +ℤ negsuc n = sub_nat m (suc n)
negsuc m +ℤ pos n = sub_nat n (suc m)
negsuc m +ℤ negsuc n = negsuc (suc (m + n))

unfoldable pub is_positive : ℤ → Bool
is_positive (pos zero) = false
is_positive (pos (suc n)) = true
is_positive (negsuc n) = false

unfoldable pub is_negative : ℤ → Bool
is_negative (pos n) = false
is_negative (negsuc n) = true
