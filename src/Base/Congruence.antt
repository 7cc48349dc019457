-- ===== src/Base/Congruence.antt =====
-- Numbers up to multiples of another one, and integers reduced by it.
use Prim.Native.Nat.{ℕ, suc, ◌+◌, ◌-◌, ◌*◌, ◌/◌, ◌%◌, ◌<◌}
use mathlib.Core.Path.{◌≡◌, sym, ap}
use native.Mathlib.Omega.{arith}
use native.Mathlib.Decide.{dec_lt}
use judica_vm.Base.Tests.{leb, if◌then◌else◌}
use judica_vm.Base.Int.{ℤ, pos, negsuc}

-- a and b differ by a multiple of n.
abbrev pub Cong : ℕ → ℕ → ℕ → Type 0
Cong n a b = (u : ℕ) × (v : ℕ) × (a + u * n ≡ b + v * n)

module _ (n : ℕ) where
  pub Cong-eq : (a b : ℕ) → a ≡ b → Cong n a b
  Cong-eq a b e = (0, 0, omega arith)

  pub Cong-sym : (a b : ℕ) → Cong n a b → Cong n b a
  Cong-sym a b (u, v, e) = (v, u, sym e)

  pub Cong-trans : (a b c : ℕ) → Cong n a b → Cong n b c → Cong n a c
  Cong-trans a b c (u, v, e) (u', v', e') = (u + u', v + v', grind arith)

  pub Cong-add : (a b c d : ℕ) → Cong n a b → Cong n c d → Cong n (a + c) (b + d)
  Cong-add a b c d (u, v, e) (u', v', e') = (u + u', v + v', grind arith)

  pub Cong-mul : (a b k : ℕ) → Cong n a b → Cong n (a * k) (b * k)
  Cong-mul a b k (u, v, e) = (u * k, v * k, grind (arith, ap (λ (t : ℕ). t * k) e))

  pub Cong-cancel : (a b c : ℕ) → Cong n (a + c) (b + c) → Cong n a b
  Cong-cancel a b c (u, v, e) = (u, v, omega arith)

  pub Cong-mod : (a : ℕ) → Cong n (a % n) a
  Cong-mod a = (a / n, 0, grind arith)

  times_more : (u d : ℕ) → (u + suc d) * n ≡ u * n + d * n + n
  times_more u d = grind arith

  too_far : (a b u v : ℕ) → u < v → a < n → a + u * n ≡ b + v * n → ⊥
  too_far a b u v less small e =
      let gap : u + suc (v - u - 1) ≡ v = omega arith in
      let scaled = ap (λ (t : ℕ). t * n) gap in omega (arith, times_more u (v - u - 1))

  pub Cong-eq_of_lt : (a b : ℕ) → a < n → b < n → Cong n a b → a ≡ b
  Cong-eq_of_lt a b h k (u, v, e) = elim (dec_lt u v) [
    | yes less ↦ absurd (too_far a b u v less h e)
    | no rest ↦ elim (dec_lt v u) [
      | yes more ↦ absurd (too_far b a v u more k (sym e))
      | no rest' ↦
          let same : u ≡ v = omega arith in let scaled = ap (λ (t : ℕ). t * n) same in omega arith
    ]
  ]

-- Arithmetic of integers without a bound.
abbrev pub pos_part : ℤ → ℕ
pos_part (pos n) = n
pos_part (negsuc n) = 0

abbrev pub neg_part : ℤ → ℕ
neg_part (pos n) = 0
neg_part (negsuc n) = suc n

-- a - b
unfoldable pub sub_ℕ : ℕ → ℕ → ℤ
sub_ℕ a b = if leb b a then pos (a - b) else negsuc (b - a - 1)

pub sub_parts : (a b : ℕ) → pos_part (sub_ℕ a b) + b ≡ neg_part (sub_ℕ a b) + a
unfolding sub_ℕ
sub_parts a b = ground arith

infixl 70 ◌*ℤ◌
unfoldable pub ◌*ℤ◌ : ℤ → ℤ → ℤ
a *ℤ b =
    sub_ℕ (pos_part a * pos_part b + neg_part a * neg_part b)
      (pos_part a * neg_part b + neg_part a * pos_part b)

-- `mod_floor`
unfoldable pub mod_floor : ℤ → ℕ → ℕ
mod_floor (pos a) n = a % n
mod_floor (negsuc a) n = n - 1 - a % n

pub mod_floor-Cong : (z : ℤ) (n : ℕ) → 0 < n → Cong n (mod_floor z n + neg_part z) (pos_part z)
unfolding mod_floor
mod_floor-Cong (pos a) n h =
    Cong-trans n (a % n + 0) (a % n) a (Cong-eq n _ _ (omega arith)) (Cong-mod n a)
mod_floor-Cong (negsuc a) n h = (0, suc (a / n), grind arith)

pub mod_floor-lt : (z : ℤ) (n : ℕ) → 0 < n → mod_floor z n < n
unfolding mod_floor
mod_floor-lt (pos a) n h = grind arith
mod_floor-lt (negsuc a) n h = grind arith
