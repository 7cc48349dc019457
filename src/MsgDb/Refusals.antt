-- ===== src/MsgDb/Refusals.antt =====
-- attest-database/src/db_handle/insert/mod.rs: which envelopes an insertion accepts.
use judica_vm.Base.{
  ℕ, zero, suc, ◌≡◌, refl, sym, ap, ◌∙◌, ◌↔◌, ◌≢◌, ◌⊎◌, inl, inr, Bool, true, false, not, ◌&&◌,
  ◌||◌, Option, none, some, List, [], ◌∷◌, ◌++◌, done, if◌then◌else◌, Bool-cases, same_done, arith,
}
use judica_vm.Base.Int.{ℤ, pos, negsuc, is_zero, is_positive, same_int}
use judica_vm.Base.Exec.{Result, ok, err}
use judica_vm.Base.Order.{text_ord}
use judica_vm.Base.Hash.{same, same_refl}
use judica_vm.Base.Text.{Text}
use judica_vm.Envelope.{CanonicalEnvelopeHash, Ancestors, GenericEnvelope, Crypto}
use judica_vm.Envelope.Canonical.{
  genesis_hash, take, is_some, stray_ancestors, get_genesis_hash, canonicalized_hash_ref,
}
use judica_vm.MsgDb.{
  MessageRow, UserRow, MsgDb, SqliteFail, sqlite_constraint_unique, by_hash, user_by_key, row_ids,
  exists_where,
}
use judica_vm.MsgDb.Insert.{
  prev_of, genesis_in, prev_in, is_attached, links_fit, body_fits, passes_checks, message_parents,
  adopt, new_row, insert_row, insert_envelope, nonce_is_used,
  try_insert_authenticated_envelope_with_txn, try_insert_authenticated_envelope,
}
use judica_vm.MsgDb.Rows.{by_hash-append, by_hash-map, by_hash-fresh, through, or_else}

same_int_self : (z : ℤ) → same_int z z ≡ true
same_int_self (pos n) = ground arith
same_int_self (negsuc n) = ground arith

body_lem :
    (ancestors : Option Ancestors) (hash genesis : CanonicalEnvelopeHash) (height sent : ℤ)
    → genesis_in ancestors hash ≡ genesis
    → (same (genesis_in ancestors hash) genesis
        && same (prev_in ancestors (prev_of ancestors)) (prev_of ancestors)
        && same_int height height
        && same_int sent sent)
      ≡ true
body_lem none hash genesis height sent e =
    rw (e, same_refl genesis, same_refl genesis_hash, same_int_self height, same_int_self sent) refl
body_lem (some a) hash genesis height sent e =
    rw (e, same_refl genesis, same_refl a.prev_msg, same_int_self height, same_int_self sent) refl

and_true : (a b c : Bool) → b ≡ true → a ≡ c → (a && b) ≡ c
and_true a b c h k = ground arith

starts_of :
    (ancestors : Option Ancestors) (height : ℤ)
    → (is_zero height && is_some ancestors) ≡ false
    → is_zero height ≡ true
    → same (prev_of ancestors) genesis_hash ≡ true
starts_of none height no_stray starts = same_refl genesis_hash
starts_of (some a) height no_stray starts = ground arith

module _ {M : Type 0} where
  -- A message of height 0, or of a height above 0 whose genesis is there.
  abbrev pub has_place : ℤ → Option (MessageRow M) → Bool
  has_place height origin = is_zero height || is_positive height && is_some origin

  links_lem :
      (height : ℤ) (parent origin : Option (MessageRow M)) (starts : Bool)
      → (is_zero height ≡ true → starts ≡ true)
      → ((is_zero height || is_some (row_ids origin (λ m. m.message_id)))
          && (not (is_zero height || is_attached parent)
              || is_some (row_ids parent (λ m. m.message_id))
                && is_some (row_ids origin (λ m. m.message_id))
              || is_zero height)
          && (is_positive height || is_zero height && starts))
        ≡ has_place height origin
  links_lem (pos zero) parent origin starts h = let e = h refl in ground arith
  links_lem (pos (suc n)) none none starts h = ground arith
  links_lem (pos (suc n)) none (some g) starts h = ground arith
  links_lem (pos (suc n)) (some p) none starts h = ground arith
  links_lem (pos (suc n)) (some p) (some g) starts h = ground arith
  links_lem (negsuc n) parent none starts h = ground arith
  links_lem (negsuc n) none (some g) starts h = ground arith
  links_lem (negsuc n) (some p) (some g) starts h = ground arith

  -- What an insertion asks for.
  pub record Accepts (e : GenericEnvelope M) (reuse_safe : Bool)
      (hash genesis : CanonicalEnvelopeHash) (db : MsgDb M) : Type 0 where
    pub unused : (reuse_safe && nonce_is_used e.header.ancestors db) ≡ false
    pub user : UserRow
    pub is_known : user_by_key e.header.key db.users ≡ some user
    pub is_placed : has_place e.header.height (by_hash genesis db.messages) ≡ true
    pub is_new : exists_where (λ m. same hash m.hash) db.messages ≡ false

  module _ (e : GenericEnvelope M) (hash genesis : CanonicalEnvelopeHash) (nonce : Text) (now : ℤ)
      (no_stray : stray_ancestors e.header ≡ false)
      (is_genesis_of : genesis_in e.header.ancestors hash ≡ genesis) where
    starts_at :
        is_zero e.header.height ≡ true → same (prev_of e.header.ancestors) genesis_hash ≡ true
    unfolding stray_ancestors
    starts_at starts = starts_of e.header.ancestors e.header.height no_stray starts

    fits :
        (user : ℕ) (rows : List (MessageRow M))
        → passes_checks (new_row e hash genesis nonce now user rows)
          ≡ has_place e.header.height (by_hash genesis rows)
    unfolding passes_checks links_fit body_fits new_row
    fits user rows =
        and_true _ _ (has_place e.header.height (by_hash genesis rows))
          (body_lem e.header.ancestors hash genesis e.header.height e.header.sent_time_ms
            is_genesis_of)
          (links_lem e.header.height (by_hash (prev_of e.header.ancestors) rows)
            (by_hash genesis rows) (same (prev_of e.header.ancestors) genesis_hash) starts_at)

    -- The new row is found under its hash.
    adopt-body : (new m : MessageRow M) → (adopt new m).body ≡ m.body
    unfolding adopt
    adopt-body new m = ground arith

    adopt-hash : (new m : MessageRow M) → (adopt new m).hash ≡ m.hash
    unfolding adopt
    adopt-hash new m = ground arith

    finds_new :
        (new : MessageRow M) (rows : List (MessageRow M))
        → by_hash new.hash rows ≡ none
        → by_hash new.hash (message_parents new (rows ++ new ∷ [])) ≡ some (adopt new new)
    unfolding message_parents
    finds_new new rows missing =
        by_hash-map (adopt new) (adopt-hash new) new.hash (rows ++ new ∷ [])
        ∙ ap (through (adopt new)) (
            by_hash-append new.hash rows new
            ∙ ap (λ o. or_else o (if same new.hash new.hash then some new else none)) missing
            ∙ ap (λ b. if b then some new else none) (same_refl new.hash))

    -- What is said of an insertion's result.
    abbrev Judged : Bool → MsgDb M → Result SqliteFail Unit × MsgDb M → Type 0
    Judged reuse_safe db (res, db') =
        ((res ≡ ok tt) ↔ (Accepts e reuse_safe hash genesis db))
        × (((res ≡ ok tt)
              × (m : MessageRow M) × (by_hash hash db'.messages ≡ some m)
              × (m.body ≡ e))
            ⊎ (res ≢ ok tt) × (db' ≡ db))

    insert_row-Judged :
        (reuse_safe : Bool) (db : MsgDb M) (user : UserRow)
        → (reuse_safe && nonce_is_used e.header.ancestors db) ≡ false
        → user_by_key e.header.key db.users ≡ some user
        → Judged reuse_safe db
            (insert_row (new_row e hash genesis nonce now user.user_id db.messages) db)
    unfolding insert_row new_row
    insert_row-Judged reuse_safe db user unused known =
        let new = new_row e hash genesis nonce now user.user_id db.messages in
        let fit = fits user.user_id db.messages in
        elim (Bool-cases (has_place e.header.height (by_hash genesis db.messages))) [
          | inr stray ↦
              rw (fit ∙ stray, insert_row)
                (((λ h. cc), (λ a. let placed = a.is_placed in cc)), inr ((λ h. cc), refl))
          | inl placed ↦ elim (Bool-cases (exists_where (λ m. same hash m.hash) db.messages)) [
            | inl taken ↦
                rw (fit ∙ placed, taken, insert_row)
                  (((λ h. cc), (λ a. let free = a.is_new in cc)), inr ((λ h. cc), refl))
            | inr free ↦
                rw (fit ∙ placed, free, insert_row)
                  (
                    (
                      λ h. record {
                        unused = unused;
                        user = user;
                        is_known = known;
                        is_placed = placed;
                        is_new = free;
                      },
                      λ a. refl,
                    ),
                    inl (
                      refl,
                      adopt new new,
                      finds_new new db.messages (by_hash-fresh hash db.messages free),
                      adopt-body new new,
                    ),
                  )
          ]
        ]

    insert_envelope-Judged :
        (reuse_safe : Bool) (db : MsgDb M) (user : Option UserRow)
        → (reuse_safe && nonce_is_used e.header.ancestors db) ≡ false
        → user_by_key e.header.key db.users ≡ user
        → Judged reuse_safe db (insert_envelope e hash genesis nonce now user db)
    insert_envelope-Judged reuse_safe db none unused known =
        unfold insert_envelope in
        (((λ h. cc), (λ a. let found = a.is_known in cc)), inr ((λ h. cc), refl))
    insert_envelope-Judged reuse_safe db (some user) unused known =
        unfold insert_envelope in (insert_row-Judged reuse_safe db user unused known)

  genesis_given :
      {E : Type 0} (c : Crypto M E) (e : GenericEnvelope M) (ancestors : Option Ancestors)
      (hash genesis : CanonicalEnvelopeHash)
      → elim ancestors [ some a ↦ done a.genesis | none ↦ canonicalized_hash_ref c e ]
        ≡ done genesis
      → canonicalized_hash_ref c e ≡ done hash
      → genesis_in ancestors hash ≡ genesis
  genesis_given c e none hash genesis is_genesis is_hash = same_done (sym is_hash ∙ is_genesis)
  genesis_given c e (some a) hash genesis is_genesis is_hash = same_done is_genesis

  -- An insertion of a signed envelope that has no ancestors at height 0 ends with a verdict. The
  -- verdict is that of success exactly when the envelope's parent has no child yet, where this is asked
  -- for, its key has a user, it is of height 0 or of a height above 0 with its genesis in the table, and
  -- its hash is new. Then the envelope is found under its hash, and otherwise nothing has changed.
  pub try_insert-Accepts :
      {E : Type 0} (c : Crypto M E) (e : GenericEnvelope M) (reuse_safe : Bool) (now : ℤ)
      (db : MsgDb M) (hash genesis : CanonicalEnvelopeHash) (sig : Text)
      → stray_ancestors e.header ≡ false
      → get_genesis_hash c e ≡ done genesis
      → canonicalized_hash_ref c e ≡ done hash
      → e.header.unsigned.signature ≡ some sig
      → (res : Result SqliteFail Unit) × (db' : MsgDb M) × (try_insert_authenticated_envelope c
            (record { inner = e })
            reuse_safe
            now
            db
          ≡ done (res, db'))
        × ((res ≡ ok tt) ↔ (Accepts e reuse_safe hash genesis db))
        × (((res ≡ ok tt)
              × (m : MessageRow M) × (by_hash hash db'.messages ≡ some m)
              × (m.body ≡ e))
            ⊎ (res ≢ ok tt) × (db' ≡ db))
  unfolding try_insert_authenticated_envelope try_insert_authenticated_envelope_with_txn
  try_insert-Accepts c e reuse_safe now db hash genesis sig no_stray is_genesis is_hash is_signed =
      elim (Bool-cases (reuse_safe && nonce_is_used e.header.ancestors db)) [
        | inl used ↦ (
          err sqlite_constraint_unique,
          db,
          rw used refl,
          ((λ h. cc), (λ a. let unused = a.unused in cc)),
          inr ((λ h. cc), refl),
        )
        | inr unused ↦
            let is_genesis_of =
              genesis_given c e e.header.ancestors hash genesis
                (unfold get_genesis_hash in is_genesis) is_hash in
            let user = user_by_key e.header.key db.users in
            let r = insert_envelope e hash genesis (take 32 sig) now user db in
            let (verdict, found) =
              insert_envelope-Judged e hash genesis (take 32 sig) now no_stray is_genesis_of
                reuse_safe db user unused refl in
            (r.0, r.1, rw (unused, is_genesis, is_hash, is_signed) refl, verdict, found)
      ]
