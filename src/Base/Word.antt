-- ===== src/Base/Word.antt =====
-- u64 and u128 arithmetic as a build with overflow checks runs it: what leaves the range, falls
-- below zero or divides by zero panics.
use Prim.Native.Nat.{ℕ, ◌+◌, ◌-◌, ◌*◌, ◌/◌, ◌^◌, ◌≤◌, ◌<◌}
use mathlib.Core.Path.{◌≡◌}
use native.Mathlib.Omega.{arith}
use judica_vm.Base.Tests.{ltb, leb, ◌==◌, if◌then◌else◌}
use judica_vm.Base.Panics.{Outcome, done, panic}

-- The number of values of the type.
abbrev pub u64 : ℕ
u64 = 2 ^ 64

abbrev pub u128 : ℕ
u128 = 2 ^ 128

-- A result that has to fit the type with `w` values.
unfoldable pub fit : ℕ → ℕ → Outcome ℕ
fit w n = if ltb n w then done n else panic

unfoldable pub add : ℕ → ℕ → ℕ → Outcome ℕ
unfolding fit
add w a b = fit w (a + b)

unfoldable pub mul : ℕ → ℕ → ℕ → Outcome ℕ
unfolding fit
mul w a b = fit w (a * b)

unfoldable pub sub : ℕ → ℕ → Outcome ℕ
sub a b = if leb b a then done (a - b) else panic

unfoldable pub div : ℕ → ℕ → Outcome ℕ
div a b = if b == 0 then panic else done (a / b)

pub add-eq-done : (w a b : ℕ) {c : ℕ} → add w a b ≡ done c → (c ≡ a + b) × (c < w)
unfolding add
add-eq-done w a b h = ground arith

pub mul-eq-done : (w a b : ℕ) {c : ℕ} → mul w a b ≡ done c → (c ≡ a * b) × (c < w)
unfolding mul
mul-eq-done w a b h = ground arith

pub sub-eq-done : (a b : ℕ) {c : ℕ} → sub a b ≡ done c → (c + b ≡ a) × (c ≡ a - b) × (b ≤ a)
unfolding sub
sub-eq-done a b h = ground arith

pub div-eq-done : (a b : ℕ) {c : ℕ} → div a b ≡ done c → (c ≡ a / b) × (1 ≤ b)
unfolding div
div-eq-done a b h = ground arith

pub add-of_lt : (w a b : ℕ) → a + b < w → add w a b ≡ done (a + b)
unfolding add
add-of_lt w a b h = ground arith

pub mul-of_lt : (w a b : ℕ) → a * b < w → mul w a b ≡ done (a * b)
unfolding mul
mul-of_lt w a b h = ground arith

pub sub-of_le : (a b : ℕ) → b ≤ a → sub a b ≡ done (a - b)
unfolding sub
sub-of_le a b h = ground arith

pub div-of_pos : (a b : ℕ) → 1 ≤ b → div a b ≡ done (a / b)
unfolding div
div-of_pos a b h = ground arith
