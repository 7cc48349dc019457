-- ===== src/Sequencer/Chain.antt =====
-- game-sequencer/src/lib.rs: which chains of the host's envelopes the offline sequencer accepts.
use judica_vm.Base.{
  ℕ, suc, ◌+◌, ◌^◌, ◌≤◌, ◌<◌, ◌≡◌, refl, ◌∙◌, ◌↔◌, inl, inr, Bool, true, false, List, [], ◌∷◌,
  Outcome, done, panic, ◌>>=◌, if◌then◌else◌, Bool-cases, Outcome-cases, length, arith,
}
use judica_vm.Base.Int.{ℤ, pos, negsuc, same_int, add_one}
use judica_vm.Base.Exec.{ok}
use judica_vm.Base.Order.{text_ord}
use judica_vm.Base.Hash.{same→eq, same_refl}
use judica_vm.Envelope.{Key, Authenticated}
use judica_vm.Sequencer.{
  Broadcast, RawSequencer, OfflineSequencer, any_window, height_of, key_of, lacks_tip, is_gap,
  is_other_key, batches_of, try_from_raw,
}

-- Envelopes at successive heights from the one given, all with one key.
pub data IsChain (key : Key) : ℕ → List (Authenticated Broadcast) → Type 0 where
  ended : {n : ℕ} → IsChain key n []
  linked :
      {n : ℕ} {e : Authenticated Broadcast} {es : List (Authenticated Broadcast)}
      → height_of e ≡ pos n
      → key_of e ≡ key
      → IsChain key (suc n) es
      → IsChain key n (e ∷ es)

same_int-eq : (a b : ℤ) → same_int a b ≡ true → a ≡ b
same_int-eq (pos m) (pos n) h = ground arith
same_int-eq (pos m) (negsuc n) h = ground arith
same_int-eq (negsuc m) (pos n) h = ground arith
same_int-eq (negsuc m) (negsuc n) h = ground arith

same_int_refl : (n : ℕ) → same_int (pos n) (pos n) ≡ true
same_int_refl n = ground arith

-- A test that is false of each pair of neighbours.
passes_on :
    (first rest : Outcome Bool)
    → (first >>= λ found. if found then done true else rest) ≡ done false
    → (first ≡ done false) × (rest ≡ done false)
passes_on panic rest h = ground arith
passes_on (done true) rest h = ground arith
passes_on (done false) rest h = (refl, h)

none_between :
    {A : Type 0} (test : A → A → Outcome Bool) (x y : A) (rest : List A)
    → any_window test (x ∷ y ∷ rest) ≡ done false
    → (test x y ≡ done false) × (any_window test (y ∷ rest) ≡ done false)
unfolding any_window
none_between test x y rest h = passes_on (test x y) (any_window test (y ∷ rest)) h

next_height :
    (a b : Authenticated Broadcast) (n : ℕ)
    → height_of a ≡ pos n
    → is_gap a b ≡ done false
    → height_of b ≡ pos (suc n)
unfolding is_gap add_one
next_height a b n at h = ground (arith, same_int-eq (pos (n + 1)) (height_of b))

same_keys : (a b : Authenticated Broadcast) → is_other_key a b ≡ done false → key_of b ≡ key_of a
unfolding is_other_key
same_keys a b h = ground (arith, same→eq (key_of a) (key_of b))

-- The tests, when they find nothing, leave a chain.
chain_of :
    (key : Key) (n : ℕ) (e : Authenticated Broadcast) (es : List (Authenticated Broadcast))
    → height_of e ≡ pos n
    → key_of e ≡ key
    → any_window is_gap (e ∷ es) ≡ done false
    → any_window is_other_key (e ∷ es) ≡ done false
    → IsChain key n (e ∷ es)
chain_of key n e [] at by no_gap no_other = linked at by ended
chain_of key n e (e' ∷ es) at by no_gap no_other =
    let (near, later) = none_between is_gap e e' es no_gap in
    let (same_key, later_keys) = none_between is_other_key e e' es no_other in
    linked at by (
      chain_of key (suc n) e' es (next_height e e' n at near) (same_keys e e' same_key ∙ by) later
        later_keys)

-- And a chain passes the tests, if its heights fit an `i64`.
follows :
    (a b : Authenticated Broadcast) (n : ℕ)
    → n + 1 < 2 ^ 63
    → height_of a ≡ pos n
    → height_of b ≡ pos (suc n)
    → is_gap a b ≡ done false
unfolding is_gap add_one
follows a b n fits at next = ground (arith, same_int_refl (n + 1))

chain_no_gap :
    (key : Key) (n : ℕ) (es : List (Authenticated Broadcast))
    → n + length es ≤ 2 ^ 63
    → IsChain key n es
    → any_window is_gap es ≡ done false
unfolding any_window is_gap add_one
chain_no_gap key n [] fits ended = refl
chain_no_gap key n (e ∷ []) fits (linked at by rest) = refl
chain_no_gap key n (e ∷ e' ∷ es) fits (linked at by (linked at' by' rest)) =
    let rec = chain_no_gap key (suc n) (e' ∷ es) (omega arith) (linked at' by' rest) in
    rw (follows e e' n (omega arith) at at', rec) refl

chain_no_other :
    (key : Key) (n : ℕ) (es : List (Authenticated Broadcast))
    → IsChain key n es
    → any_window is_other_key es ≡ done false
unfolding any_window is_other_key
chain_no_other key n [] ended = refl
chain_no_other key n (e ∷ []) (linked at by rest) = refl
chain_no_other key n (e ∷ e' ∷ es) (linked at by (linked at' by' rest)) =
    let rec = chain_no_other key (suc n) (e' ∷ es) (linked at' by' rest) in
    rw (by, by', same_refl key, rec) refl

chain_from_tip :
    (es : List (Authenticated Broadcast))
    → lacks_tip es ≡ false
    → any_window is_gap es ≡ done false
    → any_window is_other_key es ≡ done false
    → (key : Key) × IsChain key 0 es
unfolding lacks_tip
chain_from_tip [] tip no_gap no_other = ([], ended)
chain_from_tip (e ∷ es) tip no_gap no_other =
    let at : height_of e ≡ pos 0 = ground (arith, same_int-eq (height_of e) (pos 0)) in
    (key_of e, chain_of (key_of e) 0 e es at refl no_gap no_other)

chain_has_tip :
    (key : Key) (es : List (Authenticated Broadcast)) → IsChain key 0 es → lacks_tip es ≡ false
unfolding lacks_tip
chain_has_tip key [] ended = refl
chain_has_tip key (e ∷ es) (linked at by rest) = rw (at) refl

module _ {M : Type 0} (raw : RawSequencer M) where
  abbrev envelopes : List (Authenticated Broadcast)
  envelopes = raw.sequencer_envelopes

  -- What an acceptance has passed.
  passed :
      (o : OfflineSequencer M)
      → try_from_raw raw ≡ done (ok o)
      → (lacks_tip envelopes ≡ false)
        × (any_window is_gap envelopes ≡ done false)
        × (any_window is_other_key envelopes ≡ done false)
  unfolding try_from_raw
  passed o h = elim (Bool-cases (lacks_tip envelopes)) [
    | inl no_tip ↦ ground arith
    | inr tip ↦ elim (Outcome-cases (any_window is_gap envelopes)) [
      | inl stop ↦ ground arith
      | inr (gapped, gap_ran) ↦ elim (Outcome-cases (any_window is_other_key envelopes)) [
        | inl stop ↦ ground arith
        | inr (foreign, key_ran) ↦ ground arith
      ]
    ]
  ]

  accepts :
      (key : Key)
      → length envelopes ≤ 2 ^ 63
      → IsChain key 0 envelopes
      → (o : OfflineSequencer M) × (try_from_raw raw ≡ done (ok o))
  unfolding try_from_raw
  accepts key fits chain = (
    record { batches_to_sequence = batches_of envelopes; msg_cache = raw.msg_cache },
    rw
        (
          chain_has_tip key envelopes chain,
          chain_no_gap key 0 envelopes (omega arith) chain,
          chain_no_other key 0 envelopes chain,
        )
        refl,
  )

  -- The offline sequencer accepts the host's envelopes, if they are at most 2^63, exactly when they
  -- stand at the heights 0, 1, 2 and so on and all have one key. It accepts the empty chain.
  pub try_from_raw-IsChain :
      length envelopes ≤ 2 ^ 63
      → ((o : OfflineSequencer M) × (try_from_raw raw ≡ done (ok o)))
        ↔ ((key : Key) × IsChain key 0 envelopes)
  try_from_raw-IsChain fits = (
    λ (o, h).
        let (tip, no_gap, no_other) = passed o h in chain_from_tip envelopes tip no_gap no_other,
    λ (key, chain). accepts key fits chain,
  )
