-- ===== src/Base/Sort.antt =====
-- `sort`, `sort_unstable` and `dedup` of a vector. Elements that the order does not tell apart are
-- equal wherever the code sorts, so that a stable sort serves for both.
use mathlib.Core.Bool.{Bool}
use mathlib.Core.List.{List, [], ◌∷◌}
use judica_vm.Base.Tests.{if◌then◌else◌}

module _ {ℓ} {A : Type ℓ} where
  unfoldable pub insert_sorted : (A → A → Bool) → A → List A → List A
  insert_sorted before x [] = x ∷ []
  insert_sorted before x (y ∷ ys) = if before x y then x ∷ y ∷ ys else y ∷ insert_sorted before x ys

  unfoldable pub sort : (A → A → Bool) → List A → List A
  unfolding insert_sorted
  sort before [] = []
  sort before (x ∷ xs) = insert_sorted before x (sort before xs)

  abbrev cons_new : (A → A → Bool) → A → List A → List A
  cons_new same x [] = x ∷ []
  cons_new same x (y ∷ ys) = if same x y then y ∷ ys else x ∷ y ∷ ys

  unfoldable pub dedup : (A → A → Bool) → List A → List A
  dedup same [] = []
  dedup same (x ∷ xs) = cons_new same x (dedup same xs)
