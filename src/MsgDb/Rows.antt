-- ===== src/MsgDb/Rows.antt =====
-- attest-database/src: what is found by a hash after rows are added or changed.
use judica_vm.Base.{
  ◌≡◌, refl, sym, ap, ◌∙◌, ◌⊎◌, inl, inr, Option-cases, Bool, true, false, Option, none, some, List,
  [], ◌∷◌, ◌++◌, map, if◌then◌else◌, arith,
}
use judica_vm.Base.Order.{text_ord}
use judica_vm.Base.Hash.{same, same→eq}
use judica_vm.Envelope.{CanonicalEnvelopeHash}
use judica_vm.MsgDb.{MessageRow, by_hash, first_where, exists_where}

abbrev pub or_else : {A : Type 0} → Option A → Option A → Option A
or_else (some a) other = some a
or_else none other = other

abbrev pub through : {A B : Type 0} → (A → B) → Option A → Option B
through f none = none
through f (some a) = some (f a)

through_if :
    {A B : Type 0} (f : A → B) (b b' : Bool) (x : A) (o : Option A) (o' : Option B)
    → b' ≡ b
    → o' ≡ through f o
    → (if b' then some (f x) else o') ≡ through f (if b then some x else o)
through_if f true true x o o' e rest = refl
through_if f true false x o o' e rest = cc
through_if f false true x o o' e rest = cc
through_if f false false x o o' e rest = rest

module _ {M : Type 0} where
  pub by_hash-append :
      (h : CanonicalEnvelopeHash) (rows : List (MessageRow M)) (m : MessageRow M)
      → by_hash h (rows ++ m ∷ [])
        ≡ or_else (by_hash h rows) (if same h m.hash then some m else none)
  unfolding by_hash first_where
  by_hash-append h [] m = refl
  by_hash-append h (r ∷ rows) m = ground (arith, by_hash-append h rows m)

  -- A change that leaves the hashes is seen through the search.
  pub by_hash-map :
      (f : MessageRow M → MessageRow M) (kept : (m : MessageRow M) → (f m).hash ≡ m.hash)
      (h : CanonicalEnvelopeHash) (rows : List (MessageRow M))
      → by_hash h (map f rows) ≡ through f (by_hash h rows)
  unfolding by_hash first_where
  by_hash-map f kept h [] = refl
  by_hash-map f kept h (r ∷ rows) =
      through_if f (same h r.hash) (same h (f r).hash) r _ _ (ap (same h) (kept r))
        (by_hash-map f kept h rows)

  pub hash-by_hash :
      (h : CanonicalEnvelopeHash) (rows : List (MessageRow M)) (m : MessageRow M)
      → by_hash h rows ≡ some m
      → h ≡ m.hash
  unfolding by_hash first_where
  hash-by_hash h [] m found = cc
  hash-by_hash h (r ∷ rows) m found = ground (arith, same→eq h r.hash, hash-by_hash h rows m)

  -- A hash that no row has is not found, and the other way round.
  pub by_hash-fresh :
      (h : CanonicalEnvelopeHash) (rows : List (MessageRow M))
      → exists_where (λ m. same h m.hash) rows ≡ false
      → by_hash h rows ≡ none
  unfolding by_hash first_where exists_where
  by_hash-fresh h [] none_has = refl
  by_hash-fresh h (r ∷ rows) none_has = ground (arith, by_hash-fresh h rows)

  pub by_hash-taken :
      (h : CanonicalEnvelopeHash) (rows : List (MessageRow M)) (m : MessageRow M)
      → by_hash h rows ≡ some m
      → exists_where (λ m. same h m.hash) rows ≡ true
  unfolding by_hash first_where exists_where
  by_hash-taken h [] m found = cc
  by_hash-taken h (r ∷ rows) m found = ground (arith, by_hash-taken h rows m)

  only :
      (h : CanonicalEnvelopeHash) (new m : MessageRow M)
      → (if same h new.hash then some new else none) ≡ some m
      → m ≡ new
  only h new m found = ground arith

  pub old_or_new :
      (h : CanonicalEnvelopeHash) (rows : List (MessageRow M)) (new m : MessageRow M)
      → by_hash h (rows ++ new ∷ []) ≡ some m
      → (by_hash h rows ≡ some m) ⊎ (m ≡ new)
  old_or_new h rows new m found = elim (Option-cases (by_hash h rows)) [
    | inl missing ↦ inr (
        only h new m (
          sym (
            by_hash-append h rows new
            ∙ ap (λ o. or_else o (if same h new.hash then some new else none)) missing)
          ∙ found))
    | inr (r, at) ↦ inl (
        at
        ∙ sym (
            by_hash-append h rows new
            ∙ ap (λ o. or_else o (if same h new.hash then some new else none)) at)
        ∙ found)
  ]
