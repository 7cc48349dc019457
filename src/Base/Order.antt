-- ===== src/Base/Order.antt =====
-- The total orders by which the maps are sorted: numbers and byte strings.
use Prim.Native.Nat.{ℕ, compare, Ordering}
use mathlib.Core.Path.{◌≡◌, refl}
use mathlib.Core.List.{List, [], ◌∷◌}
use native.Mathlib.Omega.{arith}

-- `Ord` of Rust.
pub record Ord {ℓ} (K : Type ℓ) : Type ℓ where
  pub cmp : K → K → Ordering
  pub cmp-eq : (a b : K) → cmp a b ≡ Ordering.eq → a ≡ b
  pub cmp_refl : (a : K) → cmp a a ≡ Ordering.eq
  pub cmp-gt : (a b : K) → cmp a b ≡ Ordering.gt → cmp b a ≡ Ordering.lt
  pub cmp-lt : (a b : K) → cmp a b ≡ Ordering.lt → cmp b a ≡ Ordering.gt
  pub cmp_trans :
      (a b c : K) → cmp a b ≡ Ordering.lt → cmp b c ≡ Ordering.lt → cmp a c ≡ Ordering.lt

pub nat-eq : (a b : ℕ) → compare a b ≡ Ordering.eq → a ≡ b
nat-eq a b h = ground arith

pub nat_refl : (a : ℕ) → compare a a ≡ Ordering.eq
nat_refl a = ground arith

pub nat-gt : (a b : ℕ) → compare a b ≡ Ordering.gt → compare b a ≡ Ordering.lt
nat-gt a b h = ground arith

pub nat-lt : (a b : ℕ) → compare a b ≡ Ordering.lt → compare b a ≡ Ordering.gt
nat-lt a b h = ground arith

pub nat_trans :
    (a b c : ℕ) → compare a b ≡ Ordering.lt → compare b c ≡ Ordering.lt → compare a c ≡ Ordering.lt
nat_trans a b c h k = ground arith

instance abbrev pub nat_ord : Ord ℕ
nat_ord = record {
  cmp = compare;
  cmp-eq = nat-eq;
  cmp_refl = nat_refl;
  cmp-gt = nat-gt;
  cmp-lt = nat-lt;
  cmp_trans = nat_trans;
}

-- The second test decides where the first finds no difference.
abbrev pub then_cmp : Ordering → Ordering → Ordering
then_cmp Ordering.eq o = o
then_cmp Ordering.lt o = Ordering.lt
then_cmp Ordering.gt o = Ordering.gt

unfoldable pub text_cmp : List ℕ → List ℕ → Ordering
text_cmp [] [] = Ordering.eq
text_cmp [] (y ∷ ys) = Ordering.lt
text_cmp (x ∷ xs) [] = Ordering.gt
text_cmp (x ∷ xs) (y ∷ ys) = then_cmp (compare x y) (text_cmp xs ys)

pub text-eq : (s t : List ℕ) → text_cmp s t ≡ Ordering.eq → s ≡ t
unfolding text_cmp
text-eq [] [] h = refl
text-eq [] (y ∷ ys) h = cc
text-eq (x ∷ xs) [] h = cc
text-eq (x ∷ xs) (y ∷ ys) h = ground (arith, text-eq xs ys)

pub text_refl : (s : List ℕ) → text_cmp s s ≡ Ordering.eq
unfolding text_cmp
text_refl [] = refl
text_refl (x ∷ xs) = ground (arith, text_refl xs)

pub text-gt : (s t : List ℕ) → text_cmp s t ≡ Ordering.gt → text_cmp t s ≡ Ordering.lt
unfolding text_cmp
text-gt [] [] h = cc
text-gt [] (y ∷ ys) h = cc
text-gt (x ∷ xs) [] h = refl
text-gt (x ∷ xs) (y ∷ ys) h = ground (arith, text-gt xs ys)

pub text-lt : (s t : List ℕ) → text_cmp s t ≡ Ordering.lt → text_cmp t s ≡ Ordering.gt
unfolding text_cmp
text-lt [] [] h = cc
text-lt [] (y ∷ ys) h = refl
text-lt (x ∷ xs) [] h = cc
text-lt (x ∷ xs) (y ∷ ys) h = ground (arith, text-lt xs ys)

pub text_trans :
    (s t u : List ℕ)
    → text_cmp s t ≡ Ordering.lt
    → text_cmp t u ≡ Ordering.lt
    → text_cmp s u ≡ Ordering.lt
unfolding text_cmp
text_trans [] [] u h k = cc
text_trans [] (y ∷ ys) [] h k = cc
text_trans [] (y ∷ ys) (z ∷ zs) h k = refl
text_trans (x ∷ xs) [] u h k = cc
text_trans (x ∷ xs) (y ∷ ys) [] h k = cc
text_trans (x ∷ xs) (y ∷ ys) (z ∷ zs) h k = ground (arith, text_trans xs ys zs)

instance abbrev pub text_ord : Ord (List ℕ)
text_ord = record {
  cmp = text_cmp;
  cmp-eq = text-eq;
  cmp_refl = text_refl;
  cmp-gt = text-gt;
  cmp-lt = text-lt;
  cmp_trans = text_trans;
}
