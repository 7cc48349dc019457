-- ===== src/MsgDb/Anchored.antt =====
-- attest-database/src: what the mark `connected` of a row promises, in every database that the
-- operations lead to.
use judica_vm.Base.{
  ◌≡◌, refl, sym, ap, ◌∙◌, subst, ◌⊎◌, inl, inr, true, none, some, List, [], ◌∷◌, ◌++◌, map,
  if◌then◌else◌, Option-cases, arith,
}
use judica_vm.Base.Int.{is_zero}
use judica_vm.Base.Order.{text_ord}
use judica_vm.Base.Hash.{same}
use judica_vm.Envelope.{CanonicalEnvelopeHash}
use judica_vm.MsgDb.{MessageRow, by_hash}
use judica_vm.MsgDb.Insert.{adopt, message_parents}
use judica_vm.MsgDb.Rows.{or_else, through, by_hash-append, by_hash-map, old_or_new}

-- The message of a hash is connected, and so are its parent, the parent of that, and so on down to a
-- message of height 0.
pub data IsAnchored {M : Type 0} (rows : List (MessageRow M)) : CanonicalEnvelopeHash → Type 0 where
  at_genesis :
      {h : CanonicalEnvelopeHash} (m : MessageRow M)
      → by_hash h rows ≡ some m
      → m.connected ≡ true
      → is_zero m.height ≡ true
      → IsAnchored rows h
  above :
      {h : CanonicalEnvelopeHash} (m : MessageRow M)
      → by_hash h rows ≡ some m
      → m.connected ≡ true
      → IsAnchored rows m.prev_msg
      → IsAnchored rows h

abbrev pub AllAnchored : {M : Type 0} → List (MessageRow M) → Type 0
AllAnchored rows =
    (h : CanonicalEnvelopeHash) (m : MessageRow _)
    → by_hash h rows ≡ some m
    → m.connected ≡ true
    → IsAnchored rows h

module _ {M : Type 0} where
  -- The row of a connected message may change in what is not part of its chain.
  pub record Keeps (rows rows' : List (MessageRow M)) : Type 0 where
    pub after :
        (h : CanonicalEnvelopeHash) (m : MessageRow M)
        → by_hash h rows ≡ some m
        → m.connected ≡ true
        → (m' : MessageRow M) × (by_hash h rows' ≡ some m')
          × (m'.connected ≡ true)
          × (m'.height ≡ m.height)
          × (m'.prev_msg ≡ m.prev_msg)

  pub IsAnchored-Keeps :
      {rows rows' : List (MessageRow M)} {h : CanonicalEnvelopeHash}
      → Keeps rows rows'
      → IsAnchored rows h
      → IsAnchored rows' h
  IsAnchored-Keeps k (at_genesis m found on zero) =
      let (m', found', on', height, prev) = k.after _ m found on in
      at_genesis m' found' on' (ap is_zero height ∙ zero)
  IsAnchored-Keeps {rows' = rows'} k (above m found on rest) =
      let (m', found', on', height, prev) = k.after _ m found on in
      above m' found' on' (subst (IsAnchored rows') (sym prev) (IsAnchored-Keeps k rest))

  -- Rows changed one by one, and a row added at the end.
  module _ (f : MessageRow M → MessageRow M) (kept : (m : MessageRow M) → (f m).hash ≡ m.hash) where
    pub Keeps-map :
        (rows : List (MessageRow M))
        → ((m : MessageRow M)
            → m.connected ≡ true
            → ((f m).connected ≡ true) × ((f m).height ≡ m.height) × ((f m).prev_msg ≡ m.prev_msg))
        → Keeps rows (map f rows)
    Keeps-map rows alike = record {
      after = λ h m found on.
          let (on', height, prev) = alike m on in
          (f m, by_hash-map f kept h rows ∙ ap (through f) found, on', height, prev);
    }

    pub found_before :
        (h : CanonicalEnvelopeHash) (rows : List (MessageRow M)) (m' : MessageRow M)
        → by_hash h (map f rows) ≡ some m'
        → (m : MessageRow M) × (by_hash h rows ≡ some m) × (m' ≡ f m)
    found_before h rows m' found = elim (Option-cases (by_hash h rows)) [
      | inl missing ↦
          let gone : by_hash h (map f rows) ≡ none =
            by_hash-map f kept h rows ∙ ap (through f) missing in
          cc
      | inr (m, at) ↦
          let there : by_hash h (map f rows) ≡ some (f m) =
            by_hash-map f kept h rows ∙ ap (through f) at in
          (m, at, cc)
    ]

  -- A new row whose mark is earned keeps the promise.
  module _ (rows : List (MessageRow M)) (new : MessageRow M) where
    adopt-hash : (m : MessageRow M) → (adopt new m).hash ≡ m.hash
    unfolding adopt
    adopt-hash m = ground arith

    adopt-connected : (m : MessageRow M) → (adopt new m).connected ≡ m.connected
    unfolding adopt
    adopt-connected m = ground arith

    adopt-height : (m : MessageRow M) → (adopt new m).height ≡ m.height
    unfolding adopt
    adopt-height m = ground arith

    adopt-prev_msg : (m : MessageRow M) → (adopt new m).prev_msg ≡ m.prev_msg
    unfolding adopt
    adopt-prev_msg m = ground arith

    Keeps-append : Keeps rows (rows ++ new ∷ [])
    Keeps-append = record {
      after = λ h m found on. (
        m,
        by_hash-append h rows new
            ∙ ap (λ o. or_else o (if same h new.hash then some new else none)) found,
        on,
        refl,
        refl,
      );
    }

    Keeps-message_parents : (all : List (MessageRow M)) → Keeps all (message_parents new all)
    unfolding message_parents
    Keeps-message_parents all =
        Keeps-map (adopt new) adopt-hash all
          (λ m on. (adopt-connected m ∙ on, adopt-height m, adopt-prev_msg m))

    Keeps-insert : Keeps rows (message_parents new (rows ++ new ∷ []))
    Keeps-insert = record {
      after = λ h m found on.
          let (m1, found1, on1, height1, prev1) = Keeps-append.after h m found on in
          let (m2, found2, on2, height2, prev2) =
            (Keeps-message_parents (rows ++ new ∷ [])).after h m1 found1 on1 in
          (m2, found2, on2, height2 ∙ height1, prev2 ∙ prev1);
    }

    -- The mark of a new row is earned: it starts a chain, or its parent is connected.
    abbrev pub IsEarned : Type 0
    IsEarned =
        new.connected ≡ true
        → (is_zero new.height ≡ true)
          ⊎ (p : MessageRow M) × (by_hash new.prev_msg rows ≡ some p) × (p.connected ≡ true)

    new-IsAnchored :
        (h : CanonicalEnvelopeHash) (m' : MessageRow M)
        → AllAnchored rows
        → (is_zero new.height ≡ true)
          ⊎ (p : MessageRow M) × (by_hash new.prev_msg rows ≡ some p) × (p.connected ≡ true)
        → by_hash h (message_parents new (rows ++ new ∷ [])) ≡ some m'
        → m'.connected ≡ true
        → m'.height ≡ new.height
        → m'.prev_msg ≡ new.prev_msg
        → IsAnchored (message_parents new (rows ++ new ∷ [])) h
    new-IsAnchored h m' all (inl zero) found on height prev =
        at_genesis m' found on (ap is_zero height ∙ zero)
    new-IsAnchored h m' all (inr (p, at, p_on)) found on height prev = above m' found on (
        subst (IsAnchored (message_parents new (rows ++ new ∷ []))) (sym prev)
          (IsAnchored-Keeps Keeps-insert (all new.prev_msg p at p_on)))

    either-IsAnchored :
        (h : CanonicalEnvelopeHash) (m m' : MessageRow M)
        → AllAnchored rows
        → IsEarned
        → by_hash h (message_parents new (rows ++ new ∷ [])) ≡ some m'
        → m'.connected ≡ true
        → m' ≡ adopt new m
        → (by_hash h rows ≡ some m) ⊎ (m ≡ new)
        → IsAnchored (message_parents new (rows ++ new ∷ [])) h
    either-IsAnchored h m m' all earned found on e (inl at) =
        IsAnchored-Keeps Keeps-insert
          (all h m at (sym (adopt-connected m) ∙ sym (ap (λ r. r.connected) e) ∙ on))
    either-IsAnchored h m m' all earned found on e (inr is_new) =
        let e' : m' ≡ adopt new new = e ∙ ap (adopt new) is_new in
        new-IsAnchored h m' all
          (earned (sym (adopt-connected new) ∙ sym (ap (λ r. r.connected) e') ∙ on)) found on
          (ap (λ r. r.height) e' ∙ adopt-height new) (ap (λ r. r.prev_msg) e' ∙ adopt-prev_msg new)

    pub AllAnchored-insert :
        AllAnchored rows → IsEarned → AllAnchored (message_parents new (rows ++ new ∷ []))
    unfolding message_parents
    AllAnchored-insert all earned h m' found on =
        let (m, at, e) = found_before (adopt new) adopt-hash h (rows ++ new ∷ []) m' found in
        either-IsAnchored h m m' all earned found on e (old_or_new h rows new m at)
