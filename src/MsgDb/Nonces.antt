-- ===== src/MsgDb/Nonces.antt =====
-- attest-database/src/db_handle/insert/mod.rs and get/nonces.rs: keys and the nonces promised for the
-- next message, and the messages that were signed with one nonce.
use judica_vm.Base.{
  ℕ, Bool, false, ◌&&◌, ◌||◌, ◌==◌, ltb, Option, none, some, List, [], ◌∷◌, ◌++◌, if◌then◌else◌,
  length,
}
use judica_vm.Base.Exec.{ok, err}
use judica_vm.Base.Order.{text_ord}
use judica_vm.Base.Hash.{HashMap, same}
use judica_vm.Base.Text.{Text}
use judica_vm.Envelope.{Key, GenericEnvelope, Authenticated, Crypto}
use judica_vm.MsgDb.{
  MessageRow, KeyRow, NonceRow, MsgDb, sqlite_failure, sqlite_constraint_unique, fresh_id,
  first_where, all_where, exists_where, row_ids,
}
use judica_vm.MsgDb.Get.{Queried, query_row, same_id}
use judica_vm.MsgDb.Groups.{Written}

-- Rows without a key are never equal for UNIQUE.
abbrev pub is_same_nonce : Option ℕ → Key → Text → NonceRow → Bool
is_same_nonce none public_nonce nonce n = false
is_same_nonce (some id) public_nonce nonce n =
    same_id n.key_id (some id) && same n.private_nonce nonce && same n.public_nonce public_nonce

module _ {M : Type 0} where
  -- A pair is refused where either half is there.
  unfoldable pub save_keypair : Key → Text → MsgDb M → Written Unit M
  unfolding fresh_id exists_where
  save_keypair public_key private_key db =
      let row : KeyRow = record {
        key_id = fresh_id (λ k. k.key_id) db.private_keys;
        public_key = public_key;
        private_key = private_key;
      } in
      if exists_where (λ k. same k.public_key public_key || same k.private_key private_key)
        db.private_keys
      then (err (sqlite_failure sqlite_constraint_unique), db)
      else (ok tt, record db { private_keys = db.private_keys ++ row ∷ [] })

  abbrev pub key_id_of : Key → MsgDb M → Option ℕ
  key_id_of key db =
      row_ids (first_where (λ k. same k.public_key key) db.private_keys) (λ k. k.key_id)

  unfoldable pub insert_nonce : Option ℕ → Key → Text → MsgDb M → Written Key M
  unfolding fresh_id exists_where
  insert_nonce key_id public_nonce nonce db =
      let row : NonceRow = record {
        nonce_id = fresh_id (λ n. n.nonce_id) db.message_nonces;
        key_id = key_id;
        private_nonce = nonce;
        public_nonce = public_nonce;
      } in
      if exists_where (is_same_nonce key_id public_nonce nonce) db.message_nonces
      then (err (sqlite_failure sqlite_constraint_unique), db)
      else (ok public_nonce, record db { message_nonces = db.message_nonces ++ row ∷ [] })

  module _ {E : Type 0} (c : Crypto M E) where
    unfoldable pub save_nonce_for_user_by_key : Text → Key → MsgDb M → Written Key M
    unfolding insert_nonce first_where
    save_nonce_for_user_by_key nonce key db =
        insert_nonce (key_id_of key db) (c.public_of nonce) nonce db

    -- `random` is the new secret nonce.
    unfoldable pub generate_fresh_nonce_for_user_by_key : Text → Key → MsgDb M → Written Key M
    unfolding save_nonce_for_user_by_key
    generate_fresh_nonce_for_user_by_key random key db = save_nonce_for_user_by_key random key db

  unfoldable pub get_secret_for_public_nonce : Key → MsgDb M → Queried Text
  unfolding first_where
  get_secret_for_public_nonce nonce db =
      query_row (λ n. n.private_nonce)
        (first_where (λ n. same n.public_nonce nonce) db.message_nonces)

  -- `HAVING COUNT(*) > 1` over the rows with the nonce and the user.
  abbrev pub is_reused : List (MessageRow M) → MessageRow M → Bool
  is_reused rows m =
      ltb 1 (length (all_where (λ n. same n.nonce m.nonce && n.user_id == m.user_id) rows))

  -- `entry(key).or_insert(vec![]).push(v)`
  unfoldable pub push_at :
      Key
      → Authenticated (GenericEnvelope M)
      → HashMap Key (List (Authenticated (GenericEnvelope M)))
      → HashMap Key (List (Authenticated (GenericEnvelope M)))
  push_at key v [] = (key, v ∷ []) ∷ []
  push_at key v ((k, vs) ∷ found) =
      if same k key then (k, vs ++ v ∷ []) ∷ found else (k, vs) ∷ push_at key v found

  unfoldable pub by_key :
      List (MessageRow M)
      → HashMap Key (List (Authenticated (GenericEnvelope M)))
      → HashMap Key (List (Authenticated (GenericEnvelope M)))
  unfolding push_at
  by_key [] acc = acc
  by_key (m ∷ rows) acc = by_key rows (push_at m.body.header.key (record { inner = m.body }) acc)

  unfoldable pub get_reused_nonces :
      MsgDb M → HashMap Key (List (Authenticated (GenericEnvelope M)))
  unfolding by_key all_where
  get_reused_nonces db = by_key (all_where (is_reused db.messages) db.messages) []
