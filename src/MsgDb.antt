-- ===== src/MsgDb.antt =====
-- common/attest-database/src: the tables of the messages that a daemon has received, and the insertion
-- of an envelope. A body is the envelope whose text it is, and keys, hashes and nonces are bytes, where
-- the tables hold them in hex. SQLite checks NOT NULL first, then CHECK, then UNIQUE, and a statement
-- that is refused changes nothing; the failures of the disk are left out.
pub mod Rows
pub mod Insert
pub mod Connect
pub mod Anchored
pub mod Attached
pub mod Reached
pub mod Refusals
pub mod Get
pub mod Groups
pub mod Nonces
pub mod Create
pub mod Continues
pub mod Keys
use judica_vm.Base.{
  ℕ, suc, ◌+◌, max, Bool, true, false, ◌&&◌, ◌||◌, not, Option, none, some, List, [], ◌∷◌,
}
use judica_vm.Base.{if◌then◌else◌, ◌==◌}
use judica_vm.Base.Int.{ℤ}
use judica_vm.Base.Exec.{Result, ok, err}
use judica_vm.Base.Order.{text_ord}
use judica_vm.Base.Hash.{same}
use judica_vm.Base.Text.{Text}
use judica_vm.Envelope.{Key, CanonicalEnvelopeHash, GenericEnvelope}

pub record MessageRow (M : Type 0) : Type 0 where
  pub message_id : ℕ
  pub body : GenericEnvelope M
  pub hash : CanonicalEnvelopeHash
  pub user_id : ℕ
  pub received_time : ℤ
  pub prev_msg_id : Option ℕ
  pub genesis_id : Option ℕ
  pub height : ℤ
  pub sent_time : ℤ
  pub prev_msg : CanonicalEnvelopeHash
  pub genesis : CanonicalEnvelopeHash
  pub nonce : Text
  pub connected : Bool

pub record UserRow : Type 0 where
  pub user_id : ℕ
  pub nickname : Text
  pub key : Key

pub record KeyRow : Type 0 where
  pub key_id : ℕ
  pub public_key : Key
  pub private_key : Text

pub record NonceRow : Type 0 where
  pub nonce_id : ℕ
  pub key_id : Option ℕ
  pub private_nonce : Text
  pub public_nonce : Key

pub record ServiceRow : Type 0 where
  pub service_id : ℕ
  pub service_url : Text
  pub port : ℕ
  pub fetch_from : Bool
  pub push_to : Bool
  pub allow_unsolicited_tips : Bool

pub record GroupRow : Type 0 where
  pub group_id : ℕ
  pub name : Text

-- A row of the members or of the subscribers of the groups.
pub record MemberRow : Type 0 where
  pub group_id : ℕ
  pub member_id : ℕ

pub record MsgDb (M : Type 0) : Type 0 where
  pub messages : List (MessageRow M)
  pub users : List UserRow
  pub private_keys : List KeyRow
  pub message_nonces : List NonceRow
  pub hidden_services : List ServiceRow
  pub chain_commit_groups : List GroupRow
  pub members : List MemberRow
  pub subscribers : List MemberRow

pub data SqliteFail : Type 0 where
  sqlite_constraint_unique sqlite_constraint_not_null sqlite_constraint_check : SqliteFail

-- `rusqlite::Error`, as far as the statements lead to one.
pub data SqlError : Type 0 where
  sqlite_failure : SqliteFail → SqlError
  foreign_key query_returned_no_rows : SqlError

-- The id of a new row: one more than the largest, with no row ever deleted.
unfoldable pub largest : {A : Type 0} → (A → ℕ) → List A → ℕ
largest id [] = 0
largest id (r ∷ rs) = max (id r) (largest id rs)

unfoldable pub fresh_id : {A : Type 0} → (A → ℕ) → List A → ℕ
unfolding largest
fresh_id id rs = suc (largest id rs)

-- `SELECT … WHERE … LIMIT 1`
unfoldable pub first_where : {A : Type 0} → (A → Bool) → List A → Option A
first_where test [] = none
first_where test (r ∷ rs) = if test r then some r else first_where test rs

unfoldable pub all_where : {A : Type 0} → (A → Bool) → List A → List A
all_where test [] = []
all_where test (r ∷ rs) = let rest = all_where test rs in if test r then r ∷ rest else rest

unfoldable pub exists_where : {A : Type 0} → (A → Bool) → List A → Bool
exists_where test [] = false
exists_where test (r ∷ rs) = test r || exists_where test rs

unfoldable pub by_hash :
    {M : Type 0} → CanonicalEnvelopeHash → List (MessageRow M) → Option (MessageRow M)
unfolding first_where
by_hash h rows = first_where (λ m. same h m.hash) rows

unfoldable pub user_by_key : Key → List UserRow → Option UserRow
unfolding first_where
user_by_key key users = first_where (λ u. same key u.key) users

abbrev pub row_ids : {A : Type 0} → Option A → (A → ℕ) → Option ℕ
row_ids none id = none
row_ids (some r) id = some (id r)

abbrev pub no_messages : {M : Type 0} → MsgDb M
no_messages = record {
  messages = [];
  users = [];
  private_keys = [];
  message_nonces = [];
  hidden_services = [];
  chain_commit_groups = [];
  members = [];
  subscribers = [];
}
