-- ===== src/MsgDb/Insert.antt =====
-- attest-database/src/db_handle/insert/mod.rs and sql/insert: users and envelopes.
use judica_vm.Base.{
  ℕ, Bool, false, not, ◌&&◌, ◌||◌, Option, none, some, List, [], ◌∷◌, ◌++◌, map, Outcome, done,
  ◌>>=◌, unwrap, if◌then◌else◌,
}
use judica_vm.Base.Int.{ℤ, is_zero, is_positive, same_int}
use judica_vm.Base.Exec.{Result, ok, err}
use judica_vm.Base.Order.{text_ord}
use judica_vm.Base.Hash.{same}
use judica_vm.Base.Text.{Text}
use judica_vm.Envelope.{
  Key, CanonicalEnvelopeHash, Ancestors, GenericEnvelope, Authenticated, Crypto,
}
use judica_vm.Envelope.Canonical.{
  genesis_hash, take, is_some, canonicalized_hash_ref, get_genesis_hash,
}
use judica_vm.MsgDb.{
  MessageRow, UserRow, MsgDb, SqliteFail, sqlite_constraint_unique, sqlite_constraint_not_null,
  sqlite_constraint_check, fresh_id, exists_where, by_hash, user_by_key, row_ids,
}

abbrev pub Inserted : Type 0 → Type 0 → Type 0
Inserted A M = Outcome (Result SqliteFail A × MsgDb M)

abbrev pub prev_of : Option Ancestors → CanonicalEnvelopeHash
prev_of none = genesis_hash
prev_of (some a) = a.prev_msg

-- `IFNULL` of a member of the JSON text of the body.
abbrev pub genesis_in : Option Ancestors → CanonicalEnvelopeHash → CanonicalEnvelopeHash
genesis_in none otherwise = otherwise
genesis_in (some a) otherwise = a.genesis

abbrev pub prev_in : Option Ancestors → CanonicalEnvelopeHash → CanonicalEnvelopeHash
prev_in none otherwise = otherwise
prev_in (some a) otherwise = a.prev_msg

abbrev pub and_key : Result SqliteFail Unit → Key → Result SqliteFail Key
and_key (ok _) key = ok key
and_key (err e) key = err e

module _ {M : Type 0} where
  -- Whether the parent of a new row is there and connected.
  abbrev pub is_attached : Option (MessageRow M) → Bool
  is_attached none = false
  is_attached (some parent) = parent.connected

  -- The CHECK constraints of the table. The one on the nonce reads `$.header.nonce`, which no text of
  -- an envelope has, so that it is NULL and passes; the text of a body is valid JSON.
  unfoldable pub links_fit : MessageRow M → Bool
  links_fit m =
      (is_zero m.height || is_some m.genesis_id)
      && (not m.connected || is_some m.prev_msg_id && is_some m.genesis_id || is_zero m.height)
      && (is_positive m.height || is_zero m.height && same m.prev_msg genesis_hash)

  unfoldable pub body_fits : MessageRow M → Bool
  body_fits m =
      same (genesis_in m.body.header.ancestors m.hash) m.genesis
      && same (prev_in m.body.header.ancestors m.prev_msg) m.prev_msg
      && same_int m.body.header.height m.height
      && same_int m.body.header.sent_time_ms m.sent_time

  unfoldable pub passes_checks : MessageRow M → Bool
  unfolding links_fit body_fits
  passes_checks m = links_fit m && body_fits m

  -- The trigger `message_parents`, run after the row is there.
  unfoldable pub adopt : MessageRow M → MessageRow M → MessageRow M
  adopt new m =
      if same m.prev_msg new.hash then record m { prev_msg_id = some new.message_id } else m

  unfoldable pub message_parents : MessageRow M → List (MessageRow M) → List (MessageRow M)
  unfolding adopt
  message_parents new rows = map (adopt new) rows

  -- The row of envelope.sql, with its subqueries.
  unfoldable pub new_row :
      GenericEnvelope M
      → CanonicalEnvelopeHash
      → CanonicalEnvelopeHash
      → Text
      → ℤ
      → ℕ
      → List (MessageRow M)
      → MessageRow M
  unfolding fresh_id by_hash genesis_hash
  new_row e hash genesis nonce now user rows =
      let prev = prev_of e.header.ancestors in
      record {
        message_id = fresh_id (λ m. m.message_id) rows;
        body = e;
        hash = hash;
        user_id = user;
        received_time = now;
        prev_msg_id = row_ids (by_hash prev rows) (λ m. m.message_id);
        genesis_id = row_ids (by_hash genesis rows) (λ m. m.message_id);
        height = e.header.height;
        sent_time = e.header.sent_time_ms;
        prev_msg = prev;
        genesis = genesis;
        nonce = nonce;
        connected = is_zero e.header.height || is_attached (by_hash prev rows);
      }

  abbrev pub set_messages : MsgDb M → List (MessageRow M) → MsgDb M
  set_messages db rows = record db { messages = rows }

  unfoldable pub insert_row : MessageRow M → MsgDb M → Result SqliteFail Unit × MsgDb M
  insert_row m db =
      if not (passes_checks m)
      then (err sqlite_constraint_check, db)
      else if exists_where (λ other. same m.hash other.hash) db.messages
      then (err sqlite_constraint_unique, db)
      else (ok tt, set_messages db (message_parents m (db.messages ++ m ∷ [])))

  unfoldable pub insert_envelope :
      GenericEnvelope M
      → CanonicalEnvelopeHash
      → CanonicalEnvelopeHash
      → Text
      → ℤ
      → Option UserRow
      → MsgDb M
      → Result SqliteFail Unit × MsgDb M
  insert_envelope e hash genesis nonce now none db = (err sqlite_constraint_not_null, db)
  insert_envelope e hash genesis nonce now (some user) db =
      insert_row (new_row e hash genesis nonce now user.user_id db.messages) db

  unfoldable pub message_exists_children : CanonicalEnvelopeHash → MsgDb M → Bool
  unfolding exists_where
  message_exists_children h db = exists_where (λ m. same m.prev_msg h) db.messages

  unfoldable pub nonce_is_used : Option Ancestors → MsgDb M → Bool
  nonce_is_used none db = false
  nonce_is_used (some a) db = message_exists_children a.prev_msg db

  -- A key that is there already keeps its row.
  unfoldable pub insert_user : Text → Key → MsgDb M → MsgDb M
  unfolding user_by_key fresh_id
  insert_user nickname key db = elim (user_by_key key db.users) [
    | some _ ↦ db
    | none ↦
        let user : UserRow = record {
          user_id = fresh_id (λ u. u.user_id) db.users;
          nickname = nickname;
          key = key;
        } in
        record db { users = db.users ++ user ∷ [] }
  ]

  module _ {E : Type 0} (c : Crypto M E) where
    -- An envelope without a signature is a panic.
    unfoldable pub try_insert_authenticated_envelope_with_txn :
        Authenticated (GenericEnvelope M) → ℤ → MsgDb M → Inserted Unit M
    try_insert_authenticated_envelope_with_txn authed now db = do
      let e = authed.inner
      genesis ← get_genesis_hash c e
      hash ← canonicalized_hash_ref c e
      sig ← unwrap e.header.unsigned.signature
      done (insert_envelope e hash genesis (take 32 sig) now (user_by_key e.header.key db.users) db)

    unfoldable pub try_insert_authenticated_envelope :
        Authenticated (GenericEnvelope M) → Bool → ℤ → MsgDb M → Inserted Unit M
    try_insert_authenticated_envelope authed reuse_safe now db =
        if reuse_safe && nonce_is_used authed.inner.header.ancestors db
        then done (err sqlite_constraint_unique, db)
        else try_insert_authenticated_envelope_with_txn authed now db

    unfoldable pub insert_user_by_genesis_envelope :
        Text → Authenticated (GenericEnvelope M) → ℤ → MsgDb M → Inserted Key M
    insert_user_by_genesis_envelope nickname authed now db = do
      let key = authed.inner.header.key
      (res, db') ←
          try_insert_authenticated_envelope_with_txn authed now (insert_user nickname key db)
      done (and_key res key, db')
