-- ===== src/Quote/Round.antt =====
-- `roundup_div` is division rounded up.
use judica_vm.Base.{ℕ, ◌+◌, ◌-◌, ◌*◌, ◌/◌, ◌≤◌, ◌<◌, ◌≡◌, arith, done, panic, u128}
use judica_vm.Quote.{roundup_div}

-- `c` is `a / b`, rounded up.
abbrev pub IsCeil : ℕ → ℕ → ℕ → Type 0
IsCeil a b c = (1 ≤ b) × (a ≤ c * b) × (c * b < a + b)

div_rounds : (a b : ℕ) → 1 ≤ b → IsCeil a b ((a + b - 1) / b)
div_rounds a b h = omega arith

-- A `roundup_div` that does not panic has a positive divisor and returns the least `c` with
-- `a <= c * b`.
pub roundup_div-IsCeil : (a b : ℕ) {c : ℕ} → roundup_div a b ≡ done c → IsCeil a b c
unfolding roundup_div
roundup_div-IsCeil a b h = ground (arith, div_rounds a b)

pub roundup_div-zero : (a : ℕ) → roundup_div a 0 ≡ panic
unfolding roundup_div
roundup_div-zero a = ground arith

pub roundup_div-of_lt :
    (a b : ℕ) → 1 ≤ b → a + b < u128 → (c : ℕ) × (roundup_div a b ≡ done c) × IsCeil a b c
unfolding roundup_div
roundup_div-of_lt a b h fits = ((a + b - 1) / b, ground arith, div_rounds a b h)

pub IsCeil-le : (k n c m : ℕ) → IsCeil k n c → k ≤ m * n → c ≤ m
IsCeil-le k n c m h le = grind arith
