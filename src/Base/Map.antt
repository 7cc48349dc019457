-- ===== src/Base/Map.antt =====
-- `BTreeMap`: an association list in the order of its keys. A search stops at the first key that
-- is not smaller, as the one in the tree does.
use Prim.Native.Nat.{ℕ, ◌+◌, ◌≤◌, Ordering}
use mathlib.Core.Path.{◌≡◌}
use mathlib.Core.Logic.{◌≢◌}
use mathlib.Core.Bool.{Bool, true, false}
use mathlib.Core.Option.{Option, none, some}
use mathlib.Core.List.{List, [], ◌∷◌, map}
use native.Mathlib.Omega.{arith}
use judica_vm.Base.Lists.{sum}
use judica_vm.Base.Order.{Ord, nat_ord}

abbrev pub BTreeMap {ℓ} : Type ℓ → Type ℓ → Type ℓ
BTreeMap K V = List (K × V)

module _ {ℓ} {K V : Type ℓ} ⦃o : Ord K⦄ where
  unfoldable pub lookup : K → BTreeMap K V → Option V
  lookup k [] = none
  lookup k ((j, w) ∷ m) = elim (o.cmp k j) [
    | Ordering.eq ↦ some w
    | Ordering.lt ↦ none
    | Ordering.gt ↦ lookup k m
  ]

  unfoldable pub insert : K → V → BTreeMap K V → BTreeMap K V
  insert k v [] = (k, v) ∷ []
  insert k v ((j, w) ∷ m) = elim (o.cmp k j) [
    | Ordering.eq ↦ (k, v) ∷ m
    | Ordering.lt ↦ (k, v) ∷ (j, w) ∷ m
    | Ordering.gt ↦ (j, w) ∷ insert k v m
  ]

  unfoldable pub remove : K → BTreeMap K V → BTreeMap K V
  remove k [] = []
  remove k ((j, w) ∷ m) = elim (o.cmp k j) [
    | Ordering.eq ↦ m
    | Ordering.lt ↦ (j, w) ∷ m
    | Ordering.gt ↦ (j, w) ∷ remove k m
  ]

  abbrev pub contains_key : K → BTreeMap K V → Bool
  contains_key k m = elim (lookup k m) [ none ↦ false | some _ ↦ true ]

  pub lookup-insert_self : (k : K) (v : V) (m : BTreeMap K V) → lookup k (insert k v m) ≡ some v
  unfolding lookup insert
  lookup-insert_self k v [] = rw (o.cmp_refl k)
  lookup-insert_self k v ((j, w) ∷ m) = ground (arith, o.cmp_refl k, lookup-insert_self k v m)

  pub lookup-insert_ne :
      (k j : K) (v : V) (m : BTreeMap K V) → j ≢ k → lookup j (insert k v m) ≡ lookup j m
  unfolding lookup insert
  lookup-insert_ne k j v [] h = ground (arith, o.cmp-eq j k)
  lookup-insert_ne k j v ((i, w) ∷ m) h = ground (
    arith,
    o.cmp-eq j k,
    o.cmp-eq k i,
    o.cmp-eq j i,
    o.cmp_trans j k i,
    lookup-insert_ne k j v m h,
  )

abbrev pub keys {ℓ} : {K V : Type ℓ} → BTreeMap K V → List K
keys m = map (λ e. e.0) m

abbrev pub values {ℓ} : {K V : Type ℓ} → BTreeMap K V → List V
values [] = []
values ((k, v) ∷ m) = v ∷ values m

-- `get(k).map_or(0, |x| *x)`
abbrev pub get_or_zero : Option ℕ → ℕ
get_or_zero none = 0
get_or_zero (some n) = n

pub sum-insert :
    (k v : ℕ) (m : BTreeMap ℕ ℕ)
    → sum (values (insert k v m)) + get_or_zero (lookup k m) ≡ sum (values m) + v
unfolding lookup insert
sum-insert k v [] = omega arith
sum-insert k v ((j, w) ∷ m) = ground (arith, sum-insert k v m)

pub lookup-le-sum : (k : ℕ) (m : BTreeMap ℕ ℕ) → get_or_zero (lookup k m) ≤ sum (values m)
unfolding lookup
lookup-le-sum k [] = omega arith
lookup-le-sum k ((j, w) ∷ m) = ground (arith, lookup-le-sum k m)

-- Writing what is there changes nothing.
module _ {ℓ} {K V : Type ℓ} ⦃o : Ord K⦄ where
  pub insert-lookup : (k : K) (v : V) (m : BTreeMap K V) → lookup k m ≡ some v → insert k v m ≡ m
  unfolding lookup insert
  insert-lookup k v [] h = ground arith
  insert-lookup k v ((j, w) ∷ m) h = ground (arith, o.cmp-eq k j, insert-lookup k v m)
