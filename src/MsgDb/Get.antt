-- ===== src/MsgDb/Get.antt =====
-- attest-database/src/db_handle/get/messages.rs and users.rs, with sql/get: what is read. Where a query
-- names no order, the rows come in the order of the table.
use judica_vm.Base.{
  ℕ, max, Bool, true, false, not, ◌&&◌, ◌==◌, ltb, Option, none, some, List, [], ◌∷◌, ◌++◌, map,
  Outcome, done, ◌>>=◌, if◌then◌else◌,
}
use judica_vm.Base.Int.{ℤ, is_zero, is_positive, same_int, less_int}
use judica_vm.Base.Exec.{Result, ok, err}
use judica_vm.Base.Order.{text_ord}
use judica_vm.Base.Hash.{HashMap, same, put}
use judica_vm.Base.Sort.{sort, insert_sorted}
use judica_vm.Base.Text.{Text}
use judica_vm.Envelope.{Key, CanonicalEnvelopeHash, GenericEnvelope, Authenticated, Crypto}
use judica_vm.Envelope.Canonical.{get_genesis_hash, canonicalized_hash_ref, is_some}
use judica_vm.MsgDb.{
  MessageRow, UserRow, MsgDb, SqlError, query_returned_no_rows, first_where, all_where,
  exists_where, by_hash, user_by_key,
}

abbrev pub Queried : Type 0 → Type 0
Queried A = Result SqlError A

-- `query_row`
abbrev pub query_row : {A B : Type 0} → (A → B) → Option A → Queried B
query_row column none = err query_returned_no_rows
query_row column (some r) = ok (column r)

unfoldable pub keep_some : {A : Type 0} → List (Option A) → List A
keep_some [] = []
keep_some (none ∷ os) = keep_some os
keep_some (some a ∷ os) = a ∷ keep_some os

-- `collect` of results: the first error, or all values.
abbrev pub and_more : {A : Type 0} → Queried A → Queried (List A) → Queried (List A)
and_more (err e) rest = err e
and_more (ok a) (err e) = err e
and_more (ok a) (ok found) = ok (a ∷ found)

unfoldable pub collect : {A : Type 0} → List (Queried A) → Queried (List A)
collect [] = ok []
collect (q ∷ qs) = and_more q (collect qs)

abbrev pub same_id : Option ℕ → Option ℕ → Bool
same_id none none = true
same_id none (some j) = false
same_id (some i) none = false
same_id (some i) (some j) = i == j

-- What is newer than the row that a reader has come to.
abbrev pub is_after : Option ℕ → ℕ → Bool
is_after none id = true
is_after (some newer) id = ltb newer id

abbrev pub latest : Option ℕ → ℕ → Option ℕ
latest none id = some id
latest (some newer) id = some (max newer id)

module _ {M : Type 0} where
  abbrev pub bodies : List (MessageRow M) → List (Authenticated (GenericEnvelope M))
  bodies rows = map (λ m. record { inner = m.body }) rows

  -- `ORDER BY height ASC`
  unfoldable pub by_height : List (MessageRow M) → List (MessageRow M)
  unfolding sort insert_sorted
  by_height rows = sort (λ a b. not (less_int b.height a.height)) rows

  -- The row of `max(height)`, and of `min(height)`.
  abbrev pub higher : MessageRow M → Option (MessageRow M) → MessageRow M
  higher m none = m
  higher m (some r) = if less_int m.height r.height then r else m

  abbrev pub lower : MessageRow M → Option (MessageRow M) → MessageRow M
  lower m none = m
  lower m (some r) = if less_int r.height m.height then r else m

  unfoldable pub highest : List (MessageRow M) → Option (MessageRow M)
  highest [] = none
  highest (m ∷ rows) = some (higher m (highest rows))

  unfoldable pub lowest : List (MessageRow M) → Option (MessageRow M)
  lowest [] = none
  lowest (m ∷ rows) = some (lower m (lowest rows))

  -- `GROUP BY` a column: its values, each once.
  unfoldable pub groups_by : (MessageRow M → Option ℕ) → List (MessageRow M) → List (Option ℕ)
  unfolding all_where
  groups_by column [] = []
  groups_by column (m ∷ rows) =
      column m ∷ all_where (λ id. not (same_id id (column m))) (groups_by column rows)

  unfoldable pub grouped :
      (List (MessageRow M) → Option (MessageRow M))
      → (MessageRow M → Option ℕ)
      → List (MessageRow M)
      → List (MessageRow M)
  unfolding groups_by keep_some all_where
  grouped pick column rows =
      keep_some
        (map (λ id. pick (all_where (λ m. same_id id (column m)) rows)) (groups_by column rows))

  -- The join with the users.
  abbrev pub is_of_key : Key → List UserRow → MessageRow M → Bool
  is_of_key key users m = exists_where (λ u. same key u.key && u.user_id == m.user_id) users

  abbrev pub is_of_known_key : MsgDb M → MessageRow M → Bool
  is_of_known_key db m =
      exists_where
        (λ u. u.user_id == m.user_id && exists_where (λ k. same k.public_key u.key) db.private_keys)
        db.users

  unfoldable pub newer_than :
      CanonicalEnvelopeHash → ℤ → MsgDb M → List (Authenticated (GenericEnvelope M))
  unfolding by_height all_where
  newer_than genesis height db = bodies (
      by_height (
        all_where (λ m. same m.genesis genesis && m.connected && less_int height m.height)
          db.messages))

  unfoldable pub get_message_at_height_for_user :
      Key → ℤ → MsgDb M → Option (Authenticated (GenericEnvelope M))
  unfolding first_where exists_where
  get_message_at_height_for_user key height db =
      elim (first_where (λ m. is_of_key key db.users m && same_int m.height height) db.messages) [
        | none ↦ none
        | some m ↦ some (record { inner = m.body })
      ]

  unfoldable pub get_tip_for_user_by_key :
      Key → MsgDb M → Queried (Authenticated (GenericEnvelope M))
  unfolding highest all_where exists_where
  get_tip_for_user_by_key key db =
      query_row (λ m. record { inner = m.body })
        (highest (all_where (λ m. is_of_key key db.users m && m.connected) db.messages))

  unfoldable pub get_tip_for_known_keys : MsgDb M → List (Authenticated (GenericEnvelope M))
  unfolding grouped highest all_where exists_where
  get_tip_for_known_keys db = bodies (
      grouped highest (λ m. some m.user_id)
        (all_where (λ m. is_of_known_key db m && m.connected) db.messages))

  unfoldable pub get_disconnected_tip_for_known_keys :
      MsgDb M → List (Authenticated (GenericEnvelope M))
  unfolding grouped lowest all_where
  get_disconnected_tip_for_known_keys db = bodies (
      grouped lowest (λ m. m.genesis_id)
        (all_where (λ m. is_positive m.height && not m.connected) db.messages))

  unfoldable pub get_all_genesis : MsgDb M → List (Authenticated (GenericEnvelope M))
  unfolding all_where
  get_all_genesis db = bodies (all_where (λ m. is_zero m.height) db.messages)

  -- `E` is what a body is read as; a text that is no such value is none.
  module _ {A : Type 0} (from_sql : GenericEnvelope M → Option A) where
    unfoldable pub get_tips_for_all_users : MsgDb M → List A
    unfolding grouped highest all_where keep_some
    get_tips_for_all_users db = keep_some (
        map (λ m. from_sql m.body)
          (grouped highest (λ m. some m.user_id) (all_where (λ m. m.connected) db.messages)))

  unfoldable pub load_all_messages_for_user_by_key_connected :
      Key → MsgDb M → List (Authenticated (GenericEnvelope M))
  unfolding by_height all_where exists_where
  load_all_messages_for_user_by_key_connected key db =
      bodies (by_height (all_where (λ m. is_of_key key db.users m && m.connected) db.messages))

  unfoldable pub messages_by_hash :
      List CanonicalEnvelopeHash → MsgDb M → Queried (List (GenericEnvelope M))
  unfolding collect by_hash
  messages_by_hash hashes db =
      collect (map (λ h. query_row (λ m. m.body) (by_hash h db.messages)) hashes)

  unfoldable pub messages_by_id : ℕ → MsgDb M → Queried (GenericEnvelope M)
  unfolding first_where
  messages_by_id id db = query_row (λ m. m.body) (first_where (λ m. m.message_id == id) db.messages)

  unfoldable pub messages_by_ids : List ℕ → MsgDb M → Queried (List (GenericEnvelope M))
  unfolding collect messages_by_id
  messages_by_ids ids db = collect (map (λ id. messages_by_id id db) ids)

  unfoldable pub message_exists : CanonicalEnvelopeHash → MsgDb M → Bool
  unfolding exists_where
  message_exists h db = exists_where (λ m. same h m.hash) db.messages

  unfoldable pub message_not_exists_it :
      List CanonicalEnvelopeHash → MsgDb M → List CanonicalEnvelopeHash
  unfolding all_where message_exists
  message_not_exists_it hashes db = all_where (λ h. not (message_exists h db)) hashes

  unfoldable pub locate_user : Key → MsgDb M → Queried (ℕ × Text)
  unfolding user_by_key
  locate_user key db = query_row (λ u. (u.user_id, u.nickname)) (user_by_key key db.users)

  unfoldable pub get_keymap : MsgDb M → List (Key × Text)
  get_keymap db = map (λ k. (k.public_key, k.private_key)) db.private_keys

  unfoldable pub get_all_users : MsgDb M → List (Key × Text)
  get_all_users db = map (λ u. (u.key, u.nickname)) db.users

  module _ {E : Type 0} (c : Crypto M E) where
    unfoldable pub get_connected_messages_newer_than_envelopes :
        List (Authenticated (GenericEnvelope M))
        → MsgDb M
        → Outcome (List (Authenticated (GenericEnvelope M)))
    unfolding newer_than get_genesis_hash
    get_connected_messages_newer_than_envelopes [] db = done []
    get_connected_messages_newer_than_envelopes (e ∷ envelopes) db =
        let rest = get_connected_messages_newer_than_envelopes envelopes db in
        get_genesis_hash c e.inner >>= λ genesis.
        rest >>= λ more. done (newer_than genesis e.inner.header.height db ++ more)

    abbrev pub Collected : Type 0 → Type 0
    Collected A = Option ℕ × HashMap CanonicalEnvelopeHash A

    unfoldable pub collect_rows :
        List (MessageRow M)
        → Collected (Authenticated (GenericEnvelope M))
        → Outcome (Collected (Authenticated (GenericEnvelope M)))
    unfolding put canonicalized_hash_ref
    collect_rows [] (newer, found) = done (newer, found)
    collect_rows (m ∷ rows) (newer, found) = canonicalized_hash_ref c m.body >>= λ h.
        collect_rows rows (latest newer m.message_id, put h (record { inner = m.body }) found)

    unfoldable pub get_all_connected_messages_collect_into :
        Collected (Authenticated (GenericEnvelope M))
        → MsgDb M
        → Outcome (Collected (Authenticated (GenericEnvelope M)))
    unfolding collect_rows all_where
    get_all_connected_messages_collect_into (newer, found) db =
        collect_rows (all_where (λ m. is_after newer m.message_id && m.connected) db.messages)
          (newer, found)

    -- A body that is no `A` ends the reading with an error, or is skipped.
    module _ {A : Type 0} (from_sql : GenericEnvelope M → Option A) (invalid : SqlError) where
      abbrev pub and_put :
          Option A
          → MessageRow M
          → HashMap CanonicalEnvelopeHash A
          → Outcome (HashMap CanonicalEnvelopeHash A)
      and_put none m found = done found
      and_put (some v) m found = canonicalized_hash_ref c m.body >>= λ h. done (put h v found)

      unfoldable pub collect_valid :
          Bool → List (MessageRow M) → Collected A → Outcome (Result SqlError Unit × Collected A)
      unfolding put canonicalized_hash_ref
      collect_valid skip_invalid [] at = done (ok tt, at)
      collect_valid skip_invalid (m ∷ rows) (newer, found) =
          let next = latest newer m.message_id in
          let rest = λ (found' : HashMap CanonicalEnvelopeHash A).
            collect_valid skip_invalid rows (next, found') in
          if not (is_some (from_sql m.body)) && not skip_invalid
          then done (err invalid, (next, found))
          else and_put (from_sql m.body) m found >>= rest

      unfoldable pub get_all_messages_collect_into_inconsistent_skip_invalid :
          Bool → Collected A → MsgDb M → Outcome (Result SqlError Unit × Collected A)
      unfolding collect_valid all_where
      get_all_messages_collect_into_inconsistent_skip_invalid skip_invalid (newer, found) db =
          collect_valid skip_invalid (all_where (λ m. is_after newer m.message_id) db.messages)
            (newer, found)
