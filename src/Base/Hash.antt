-- ===== src/Base/Hash.antt =====
-- `HashMap`: a list of entries, in the order in which an iteration happens to give them.
use Prim.Native.Nat.{Ordering}
use mathlib.Core.Path.{◌≡◌, refl, sym, subst, ◌∙◌}
use mathlib.Core.Logic.{◌≢◌, ◌⊎◌, inl, inr}
use mathlib.Core.Bool.{Bool, true, false}
use mathlib.Core.Option.{Option, none, some}
use mathlib.Core.List.{List, [], ◌∷◌}
use native.Mathlib.Omega.{arith}
use judica_vm.Base.Tests.{if◌then◌else◌, Bool-cases}
use judica_vm.Base.Order.{Ord}

abbrev pub HashMap : Type 0 → Type 0 → Type 0
HashMap K V = List (K × V)

module _ {K : Type 0} ⦃o : Ord K⦄ where
  abbrev pub same : K → K → Bool
  same k j = elim (o.cmp k j) [ Ordering.eq ↦ true | _ ↦ false ]

  pub same→eq : (k j : K) → same k j ≡ true → k ≡ j
  same→eq k j h = ground (arith, o.cmp-eq k j)

  pub same_refl : (k : K) → same k k ≡ true
  same_refl k = rw (same, o.cmp_refl k) refl

  pub same_ne : (k j : K) → k ≢ j → same k j ≡ false
  same_ne k j h = ground (arith, o.cmp-eq k j)

  different : (k j : K) → same k j ≡ false → k ≢ j
  different k j off e = let on = subst (λ x. same k x ≡ true) e (same_refl k) in cc

module _ {K V : Type 0} ⦃o : Ord K⦄ where
  unfoldable pub get : K → HashMap K V → Option V
  get k [] = none
  get k ((j, w) ∷ m) = if same k j then some w else get k m

  -- What is left when the entry of a key is taken out.
  unfoldable pub without : K → HashMap K V → HashMap K V
  without k [] = []
  without k ((j, w) ∷ m) = let rest = without k m in if same k j then rest else (j, w) ∷ rest

  -- `insert`
  unfoldable pub put : K → V → HashMap K V → HashMap K V
  unfolding without
  put k v m = (k, v) ∷ without k m

  pub get-without_self : (k : K) (m : HashMap K V) → get k (without k m) ≡ none
  unfolding get without
  get-without_self k [] = refl
  get-without_self k ((j, w) ∷ m) = ground (arith, get-without_self k m)

  pub get-without_ne : (k j : K) (m : HashMap K V) → j ≢ k → get j (without k m) ≡ get j m
  unfolding get without
  get-without_ne k j [] h = refl
  get-without_ne k j ((i, w) ∷ m) h =
      ground (arith, o.cmp-eq k i, o.cmp-eq j i, get-without_ne k j m h)

  -- What is found after an insertion is the new value or was there.
  pub get-put :
      (k j : K) (v w : V) (m : HashMap K V)
      → get j (put k v m) ≡ some w
      → ((j ≡ k) × (w ≡ v)) ⊎ (get j m ≡ some w)
  unfolding get put
  get-put k j v w m found = elim (Bool-cases (same j k)) [
    | inl at ↦ inl (same→eq j k at, ground arith)
    | inr off ↦ inr (sym (get-without_ne k j m (different j k off)) ∙ ground arith)
  ]

  -- Taking out an entry uncovers no other.
  pub get-without_le :
      (k j : K) (m : HashMap K V) (w : V) → get j (without k m) ≡ some w → get j m ≡ some w
  get-without_le k j m w found = elim (Bool-cases (same j k)) [
    | inl at ↦
        let gone : get j (without k m) ≡ none =
          subst (λ x. get j (without x m) ≡ none) (same→eq j k at) (get-without_self j m) in
        cc
    | inr off ↦ sym (get-without_ne k j m (different j k off)) ∙ found
  ]
