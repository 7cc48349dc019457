-- ===== src/MsgDb/Groups.antt =====
-- attest-database/src/db_handle: the groups of chains that commit to one another, and the peers.
use judica_vm.Base.{
  ℕ, max, Bool, false, not, ◌&&◌, ◌||◌, ◌==◌, ltb, Option, none, some, List, [], ◌∷◌, ◌++◌, map,
  Outcome, done, ◌>>=◌, if◌then◌else◌,
}
use judica_vm.Base.Int.{is_zero}
use judica_vm.Base.Exec.{Result, ok, err}
use judica_vm.Base.Order.{text_ord}
use judica_vm.Base.Hash.{HashMap, same, put}
use judica_vm.Base.Text.{Text}
use judica_vm.Envelope.{Key, CanonicalEnvelopeHash, GenericEnvelope, Crypto}
use judica_vm.Envelope.Canonical.{canonicalized_hash_ref}
use judica_vm.MsgDb.{
  MessageRow, GroupRow, MemberRow, ServiceRow, MsgDb, SqlError, sqlite_failure, foreign_key,
  sqlite_constraint_unique, sqlite_constraint_not_null, fresh_id, all_where, exists_where, by_hash,
}
use judica_vm.MsgDb.Get.{grouped, highest, is_of_key, Queried}

pub record PeerInfo : Type 0 where
  pub service_url : Text
  pub port : ℕ
  pub fetch_from : Bool
  pub push_to : Bool
  pub allow_unsolicited_tips : Bool

-- A statement that writes.
abbrev pub Written : Type 0 → Type 0 → Type 0
Written A M = Result SqlError A × MsgDb M

-- `random` is the text of 32 random bytes.
abbrev pub name_or : Option Text → Text → Text
name_or none random = random
name_or (some name) random = name

-- `DISTINCT`
unfoldable pub distinct : List ℕ → List ℕ
unfolding all_where
distinct [] = []
distinct (id ∷ ids) = id ∷ all_where (λ j. not (j == id)) (distinct ids)

abbrev pub same_some : Option ℕ → ℕ → Bool
same_some none id = false
same_some (some i) id = i == id

-- A body is read as what `from_sql` makes of it; one that is not read is left out, or ends the
-- reading with an error.
abbrev pub and_tip : {A : Type 0} → Bool → SqlError → Option A → Queried (List A) → Queried (List A)
and_tip strict invalid (some a) (ok found) = ok (a ∷ found)
and_tip strict invalid (some a) (err e) = err e
and_tip strict invalid none rest = if strict then err invalid else rest

-- The peers: `insert_hidden_service` and `upsert_hidden_service`.
abbrev pub is_service : Text → ℕ → ServiceRow → Bool
is_service url port s = same s.service_url url && s.port == port

-- `IFNULL`
abbrev pub flag_or : Option Bool → Bool → Bool
flag_or none otherwise = otherwise
flag_or (some b) otherwise = b

abbrev pub update_service :
    Text → ℕ → Option Bool → Option Bool → Option Bool → ServiceRow → ServiceRow
update_service url port fetch_from push_to allow_unsolicited_tips s =
    if is_service url port s
    then record s {
      fetch_from = flag_or fetch_from s.fetch_from;
      push_to = flag_or push_to s.push_to;
      allow_unsolicited_tips = flag_or allow_unsolicited_tips s.allow_unsolicited_tips;
    }
    else s

module _ {M : Type 0} where
  unfoldable pub new_chain_commit_group : Option Text → Text → MsgDb M → Written (Text × ℕ) M
  unfolding fresh_id exists_where
  new_chain_commit_group name random db =
      let name = name_or name random in
      let id = fresh_id (λ g. g.group_id) db.chain_commit_groups in
      let group : GroupRow = record { group_id = id; name = name } in
      if exists_where (λ g. same g.name name) db.chain_commit_groups
      then (err (sqlite_failure sqlite_constraint_unique), db)
      else (ok (name, id), record db { chain_commit_groups = db.chain_commit_groups ++ group ∷ [] })

  -- A row of a group and a message: the group has to exist, and the row has to be new.
  abbrev pub member_row :
      ℕ → Option (MessageRow M) → List MemberRow → MsgDb M → Result SqlError MemberRow
  member_row group none rows db = err (sqlite_failure sqlite_constraint_not_null)
  member_row group (some m) rows db =
      if exists_where (λ r. r.group_id == group && r.member_id == m.message_id) rows
      then err (sqlite_failure sqlite_constraint_unique)
      else if exists_where (λ g. g.group_id == group) db.chain_commit_groups
      then ok (record { group_id = group; member_id = m.message_id })
      else err foreign_key

  abbrev pub add_member : Result SqlError MemberRow → MsgDb M → Written Unit M
  add_member (err e) db = (err e, db)
  add_member (ok r) db = (ok tt, record db { members = db.members ++ r ∷ [] })

  abbrev pub add_subscriber : Result SqlError MemberRow → MsgDb M → Written Unit M
  add_subscriber (err e) db = (err e, db)
  add_subscriber (ok r) db = (ok tt, record db { subscribers = db.subscribers ++ r ∷ [] })

  unfoldable pub add_member_to_chain_commit_group :
      ℕ → CanonicalEnvelopeHash → MsgDb M → Written Unit M
  unfolding by_hash exists_where
  add_member_to_chain_commit_group group genesis db =
      add_member (member_row group (by_hash genesis db.messages) db.members db) db

  unfoldable pub add_subscriber_to_chain_commit_group :
      ℕ → CanonicalEnvelopeHash → MsgDb M → Written Unit M
  unfolding by_hash exists_where
  add_subscriber_to_chain_commit_group group genesis db =
      add_subscriber (member_row group (by_hash genesis db.messages) db.subscribers db) db

  unfoldable pub get_all_chain_commit_groups : MsgDb M → List (ℕ × Text)
  get_all_chain_commit_groups db = map (λ g. (g.group_id, g.name)) db.chain_commit_groups

  -- The groups to which the message of height 0 with the hash subscribes.
  abbrev pub subscribes : CanonicalEnvelopeHash → MsgDb M → ℕ → Bool
  subscribes genesis db group =
      exists_where
        (λ s.
          s.group_id == group
          && exists_where
              (λ m. m.message_id == s.member_id && same m.hash genesis && is_zero m.height)
              db.messages)
        db.subscribers

  unfoldable pub get_all_chain_commit_groups_for_chain :
      CanonicalEnvelopeHash → MsgDb M → List (ℕ × Text)
  unfolding all_where exists_where
  get_all_chain_commit_groups_for_chain genesis db =
      map (λ g. (g.group_id, g.name))
        (all_where (λ g. subscribes genesis db g.group_id) db.chain_commit_groups)

  unfoldable pub get_all_chain_commit_group_members_for_chain :
      CanonicalEnvelopeHash → MsgDb M → List ℕ
  unfolding distinct all_where exists_where
  get_all_chain_commit_group_members_for_chain genesis db =
      distinct
        (map (λ r. r.member_id) (all_where (λ r. subscribes genesis db r.group_id) db.members))

  -- The groups to which a genesis of the key's user subscribes.
  abbrev pub key_subscribes : Key → MsgDb M → ℕ → Bool
  key_subscribes key db group =
      exists_where
        (λ s.
          s.group_id == group
          && exists_where
              (λ m. m.message_id == s.member_id && is_zero m.height && is_of_key key db.users m)
              db.messages)
        db.subscribers

  -- The messages of the chains that are in such a group.
  abbrev pub is_in_groups : Key → MsgDb M → MessageRow M → Bool
  is_in_groups key db m =
      exists_where
        (λ r.
          key_subscribes key db r.group_id
          && (r.member_id == m.message_id || same_some m.genesis_id r.member_id))
        db.members

  module _ {A : Type 0} (from_sql : GenericEnvelope M → Option A) (invalid : SqlError) where
    unfoldable pub read_tips : Bool → List (MessageRow M) → Queried (List A)
    read_tips no_invalid_rows [] = ok []
    read_tips no_invalid_rows (m ∷ rows) =
        and_tip no_invalid_rows invalid (from_sql m.body) (read_tips no_invalid_rows rows)

    unfoldable pub get_all_chain_commit_group_members_tips_for_chain :
        Key → Bool → MsgDb M → Queried (List A)
    unfolding read_tips grouped highest all_where exists_where
    get_all_chain_commit_group_members_tips_for_chain key no_invalid_rows db =
        read_tips no_invalid_rows (
          grouped highest (λ m. some m.user_id)
            (all_where (λ m. is_in_groups key db m && m.connected) db.messages))

  module _ {E : Type 0} (c : Crypto M E) where
    unfoldable pub collect_new :
        List (MessageRow M)
        → ℕ × HashMap CanonicalEnvelopeHash (GenericEnvelope M)
        → Outcome (ℕ × HashMap CanonicalEnvelopeHash (GenericEnvelope M))
    unfolding put canonicalized_hash_ref
    collect_new [] (newer, found) = done (newer, found)
    collect_new (m ∷ rows) (newer, found) = canonicalized_hash_ref c m.body >>= λ h.
        collect_new rows (max newer m.message_id, put h m.body found)

    unfoldable pub get_all_chain_commit_group_members_new_envelopes_for_chain_into_inconsistent :
        Key
        → ℕ × HashMap CanonicalEnvelopeHash (GenericEnvelope M)
        → MsgDb M
        → Outcome (ℕ × HashMap CanonicalEnvelopeHash (GenericEnvelope M))
    unfolding collect_new all_where exists_where
    get_all_chain_commit_group_members_new_envelopes_for_chain_into_inconsistent key (newer, found)
          db =
        collect_new (all_where (λ m. ltb newer m.message_id && is_in_groups key db m) db.messages)
          (newer, found)

  unfoldable pub insert_hidden_service : Text → ℕ → Bool → Bool → Bool → MsgDb M → Written Unit M
  unfolding fresh_id exists_where
  insert_hidden_service url port fetch_from push_to allow_unsolicited_tips db =
      let row : ServiceRow = record {
        service_id = fresh_id (λ s. s.service_id) db.hidden_services;
        service_url = url;
        port = port;
        fetch_from = fetch_from;
        push_to = push_to;
        allow_unsolicited_tips = allow_unsolicited_tips;
      } in
      if exists_where (is_service url port) db.hidden_services
      then (err (sqlite_failure sqlite_constraint_unique), db)
      else (ok tt, record db { hidden_services = db.hidden_services ++ row ∷ [] })

  unfoldable pub upsert_hidden_service :
      Text → ℕ → Option Bool → Option Bool → Option Bool → MsgDb M → MsgDb M
  unfolding fresh_id exists_where
  upsert_hidden_service url port fetch_from push_to allow_unsolicited_tips db =
      let row : ServiceRow = record {
        service_id = fresh_id (λ s. s.service_id) db.hidden_services;
        service_url = url;
        port = port;
        fetch_from = flag_or fetch_from false;
        push_to = flag_or push_to false;
        allow_unsolicited_tips = flag_or allow_unsolicited_tips false;
      } in
      if exists_where (is_service url port) db.hidden_services
      then record db {
        hidden_services =
            map (update_service url port fetch_from push_to allow_unsolicited_tips)
              db.hidden_services;
      }
      else record db { hidden_services = db.hidden_services ++ row ∷ [] }

  unfoldable pub get_all_hidden_services : MsgDb M → List PeerInfo
  get_all_hidden_services db =
      map
        (λ s. record {
          service_url = s.service_url;
          port = s.port;
          fetch_from = s.fetch_from;
          push_to = s.push_to;
          allow_unsolicited_tips = s.allow_unsolicited_tips;
        })
        db.hidden_services
