-- ===== src/MsgDb/Create.antt =====
-- attest-database/src/db_handle/create.rs: the next message of a chain, made, signed and inserted.
use judica_vm.Base.{
  Bool, true, Option, none, some, List, [], ◌∷◌, Outcome, done, ◌>>=◌, if◌then◌else◌,
}
use judica_vm.Base.Int.{ℤ, add_one}
use judica_vm.Base.Exec.{Result, ok, err}
use judica_vm.Base.Order.{text_ord}
use judica_vm.Base.Hash.{same}
use judica_vm.Base.Text.{Text}
use judica_vm.Envelope.{
  Key, CanonicalEnvelopeHash, Header, GenericEnvelope, Authenticated, Crypto, SigningError,
  AuthenticationError,
}
use judica_vm.Envelope.Canonical.{
  canonicalized_hash_ref, get_genesis_hash, new_envelope, self_authenticate,
}
use judica_vm.Envelope.Signing.{sign_with}
use judica_vm.MsgDb.{
  MsgDb, SqlError, SqliteFail, sqlite_constraint_unique, sqlite_constraint_not_null,
  sqlite_constraint_check,
}
use judica_vm.MsgDb.Insert.{try_insert_authenticated_envelope}
use judica_vm.MsgDb.Get.{Queried, get_tips_for_all_users, get_tip_for_user_by_key}
use judica_vm.MsgDb.Groups.{get_all_chain_commit_group_members_tips_for_chain}
use judica_vm.MsgDb.Nonces.{get_secret_for_public_nonce, generate_fresh_nonce_for_user_by_key}

pub data TipControl : Type 0 where
  groups_only no_tips all_tips : TipControl

-- The last element in front, for `swap_remove`.
unfoldable pub last_first : {A : Type 0} → List A → List A
last_first [] = []
last_first (x ∷ []) = x ∷ []
last_first (x ∷ y ∷ ys) = elim (last_first (y ∷ ys)) [ [] ↦ [] | z ∷ zs ↦ z ∷ x ∷ zs ]

unfoldable pub swap_remove_where : {A : Type 0} → (A → Bool) → List A → List A
unfolding last_first
swap_remove_where test [] = []
swap_remove_where test (x ∷ xs) = if test x then last_first xs else x ∷ swap_remove_where test xs

-- What one round of the loop takes from outside: a new secret nonce, and the clock, twice.
pub record Attempt : Type 0 where
  pub random : Text
  pub sent : ℤ
  pub received : ℤ

-- The errors of the loop, boxed in the source.
pub data RetryError (E : Type 0) : Type 0 where
  sql_failed : SqlError → RetryError E
  not_signed : SigningError E → RetryError E
  not_authentic : AuthenticationError E → RetryError E
  not_inserted : SqliteFail → RetryError E

-- The tip that the new message follows.
abbrev pub tip_or :
    {M : Type 0}
    → Option (GenericEnvelope M)
    → Queried (Authenticated (GenericEnvelope M))
    → Queried (GenericEnvelope M)
tip_or (some envelope) found = ok envelope
tip_or none (ok tip) = ok tip.inner
tip_or none (err e) = err e

abbrev pub Wrapped : Type 0 → Type 0 → Type 0
Wrapped M E = Queried (Result (SigningError E) (GenericEnvelope M)) × MsgDb M

abbrev pub and_msg :
    {M E : Type 0}
    → Result (SigningError E) Unit
    → GenericEnvelope M
    → Result (SigningError E) (GenericEnvelope M)
and_msg (ok _) e = ok e
and_msg (err e) _ = err e

-- The rounds of the loop, one for each attempt; none where the attempts run out.
abbrev pub Retried : Type 0 → Type 0 → Type 0
Retried M E = Option (Result (RetryError E) Unit) × MsgDb M

module _ {M E : Type 0} where
  abbrev pub verdict_or :
      Result SqliteFail Unit → MsgDb M → Outcome (Retried M E) → Outcome (Retried M E)
  verdict_or (ok _) db again = done (some (ok tt), db)
  verdict_or (err sqlite_constraint_unique) db again = again
  verdict_or (err sqlite_constraint_not_null) db again =
      done (some (err (not_inserted sqlite_constraint_not_null)), db)
  verdict_or (err sqlite_constraint_check) db again =
      done (some (err (not_inserted sqlite_constraint_check)), db)

module _ {M E : Type 0} (c : Crypto M E) where
  unfoldable pub tip_hashes :
      List (GenericEnvelope M) → Outcome (List (Key × ℤ × CanonicalEnvelopeHash))
  tip_hashes [] = done []
  tip_hashes (tip ∷ tips) =
      let rest = tip_hashes tips in
      canonicalized_hash_ref c tip >>= λ h.
      rest >>= λ more. done ((tip.header.key, tip.header.height, h) ∷ more)

  module _ (msg : M) (keypair : Text) (checkpoints : List (Text × ℤ)) (a : Attempt) where
    unfoldable pub following_header :
        List (Key × ℤ × CanonicalEnvelopeHash) → GenericEnvelope M → Key → Outcome Header
    following_header tips my_tip next_nonce = do
      prev ← canonicalized_hash_ref c my_tip
      genesis ← get_genesis_hash c my_tip
      height ← add_one my_tip.header.height
      done (record {
        key = c.public_of keypair;
        next_nonce = next_nonce;
        ancestors = some (record { prev_msg = prev; genesis = genesis });
        tips = tips;
        height = height;
        sent_time_ms = a.sent;
        unsigned = record { signature = none };
        checkpoints = checkpoints;
      })

    unfoldable pub with_next_nonce :
        List (Key × ℤ × CanonicalEnvelopeHash)
        → GenericEnvelope M
        → Text
        → Queried Key × MsgDb M
        → Outcome (Wrapped M E)
    with_next_nonce tips my_tip secret (err e, db) = done (err e, db)
    with_next_nonce tips my_tip secret (ok next_nonce, db) = do
      header ← following_header tips my_tip next_nonce
      e ← new_envelope c header msg
      (res, e') ← sign_with c keypair secret e
      done (ok (and_msg res e'), db)

    unfoldable pub with_secret :
        List (Key × ℤ × CanonicalEnvelopeHash)
        → GenericEnvelope M
        → Queried Text
        → MsgDb M
        → Outcome (Wrapped M E)
    with_secret tips my_tip (err e) db = done (err e, db)
    with_secret tips my_tip (ok secret) db =
        with_next_nonce tips my_tip secret
          (generate_fresh_nonce_for_user_by_key c a.random (c.public_of keypair) db)

    unfoldable pub with_tip :
        List (Key × ℤ × CanonicalEnvelopeHash)
        → Queried (GenericEnvelope M)
        → MsgDb M
        → Outcome (Wrapped M E)
    with_tip tips (err e) db = done (err e, db)
    with_tip tips (ok my_tip) db =
        with_secret tips my_tip (get_secret_for_public_nonce my_tip.header.next_nonce db) db

    unfoldable pub with_tips :
        Queried (List (GenericEnvelope M))
        → Option (GenericEnvelope M)
        → MsgDb M
        → Outcome (Wrapped M E)
    with_tips (err e) bypass db = done (err e, db)
    with_tips (ok tips) bypass db = do
      let key = c.public_of keypair
      tips ← tip_hashes (swap_remove_where (λ tip. same tip.header.key key) tips)
      with_tip tips (tip_or bypass (get_tip_for_user_by_key key db)) db

  unfoldable pub insert_wrapped :
      Result (AuthenticationError E) (Authenticated (GenericEnvelope M))
      → ℤ
      → (MsgDb M → Outcome (Retried M E))
      → MsgDb M
      → Outcome (Retried M E)
  insert_wrapped (err e) now again db = done (some (err (not_authentic e)), db)
  insert_wrapped (ok authed) now again db =
      try_insert_authenticated_envelope c authed true now db >>= λ r. verdict_or r.0 r.1 (again r.1)

  unfoldable pub after_wrap :
      Wrapped M E → ℤ → (MsgDb M → Outcome (Retried M E)) → Outcome (Retried M E)
  after_wrap (err e, db) now again = done (some (err (sql_failed e)), db)
  after_wrap (ok (err e), db) now again = done (some (err (not_signed e)), db)
  after_wrap (ok (ok envelope), db) now again =
      self_authenticate c envelope >>= λ r. insert_wrapped r now again db

  module _ (from_sql : GenericEnvelope M → Option (GenericEnvelope M)) (invalid : SqlError) where
    unfoldable pub gather_tips : TipControl → Key → MsgDb M → Queried (List (GenericEnvelope M))
    unfolding get_all_chain_commit_group_members_tips_for_chain get_tips_for_all_users
    gather_tips groups_only key db =
        get_all_chain_commit_group_members_tips_for_chain from_sql invalid key true db
    gather_tips all_tips key db = ok (get_tips_for_all_users (λ e. some e) db)
    gather_tips no_tips key db = ok []

    unfoldable pub wrap_message_in_envelope_for_user_by_key :
        M
        → Text
        → List (Text × ℤ)
        → Attempt
        → Option (GenericEnvelope M)
        → TipControl
        → MsgDb M
        → Outcome (Wrapped M E)
    wrap_message_in_envelope_for_user_by_key msg keypair checkpoints a bypass tip_groups db =
        with_tips msg keypair checkpoints a (gather_tips tip_groups (c.public_of keypair) db) bypass
          db

    unfoldable pub retry_insert_authenticated_envelope_atomic :
        M → Text → List (Text × ℤ) → TipControl → List Attempt → MsgDb M → Outcome (Retried M E)
    retry_insert_authenticated_envelope_atomic msg keypair checkpoints tip_groups [] db =
        done (none, db)
    retry_insert_authenticated_envelope_atomic msg keypair checkpoints tip_groups (a ∷ attempts)
          db =
        let again = λ (db' : MsgDb M).
          retry_insert_authenticated_envelope_atomic msg keypair checkpoints tip_groups attempts
            db' in
        wrap_message_in_envelope_for_user_by_key msg keypair checkpoints a none tip_groups db
        >>= λ w. after_wrap w a.received again
