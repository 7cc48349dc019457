-- ===== src/Base/Int.antt =====
-- The machine's signed 64-bit integers.
use Prim.Native.Nat.{ℕ, zero, suc, ◌+◌, ◌^◌}
use mathlib.Core.Bool.{Bool, true, false}
use judica_vm.Base.Tests.{ltb, ◌==◌, if◌then◌else◌}
use judica_vm.Base.Panics.{Outcome, done, panic}

pub data ℤ : Type 0 where
  pos : ℕ → ℤ
  negsuc : ℕ → ℤ

abbrev pub same_int : ℤ → ℤ → Bool
same_int (pos m) (pos n) = m == n
same_int (pos m) (negsuc n) = false
same_int (negsuc m) (pos n) = false
same_int (negsuc m) (negsuc n) = m == n

abbrev pub is_zero : ℤ → Bool
is_zero z = same_int z (pos 0)

abbrev pub is_positive : ℤ → Bool
is_positive (pos zero) = false
is_positive (pos (suc n)) = true
is_positive (negsuc n) = false

-- `z + 1` in an `i64`
unfoldable pub add_one : ℤ → Outcome ℤ
add_one (pos n) = if ltb (n + 1) (2 ^ 63) then done (pos (n + 1)) else panic
add_one (negsuc zero) = done (pos 0)
add_one (negsuc (suc n)) = done (negsuc n)

-- `z - 1` in an `i64`
unfoldable pub sub_one : ℤ → Outcome ℤ
sub_one (pos zero) = done (negsuc 0)
sub_one (pos (suc n)) = done (pos n)
sub_one (negsuc n) = if ltb (n + 1) (2 ^ 63) then done (negsuc (n + 1)) else panic

abbrev pub less_int : ℤ → ℤ → Bool
less_int (pos m) (pos n) = ltb m n
less_int (pos m) (negsuc n) = false
less_int (negsuc m) (pos n) = true
less_int (negsuc m) (negsuc n) = ltb n m
