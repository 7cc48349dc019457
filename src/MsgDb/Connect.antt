-- ===== src/MsgDb/Connect.antt =====
-- attest-database/src/db_handle/update.rs, sql/update/do_connect.sql and resolve_prev_ids.sql: the
-- disconnected messages whose parents have come.
use judica_vm.Base.{
  ℕ, zero, suc, ◌-◌, Bool, true, false, Option, none, some, List, [], ◌∷◌, map, length,
  if◌then◌else◌,
}
use judica_vm.Base.Int.{is_zero}
use judica_vm.MsgDb.{MessageRow, MsgDb, by_hash}
use judica_vm.MsgDb.Insert.{set_messages}

module _ {M : Type 0} where
  -- `IIF(Parent.height = 0, Parent.message_id, Parent.genesis_id)`
  abbrev pub genesis_id_of : MessageRow M → Option ℕ
  genesis_id_of parent = if is_zero parent.height then some parent.message_id else parent.genesis_id

  abbrev pub attach_to : MessageRow M → MessageRow M → MessageRow M
  attach_to parent m =
      if parent.connected
      then record m {
        connected = true;
        prev_msg_id = some parent.message_id;
        genesis_id = genesis_id_of parent;
      }
      else m

  abbrev pub attach_if : Bool → Option (MessageRow M) → MessageRow M → MessageRow M
  attach_if true parent m = m
  attach_if false none m = m
  attach_if false (some parent) m = attach_to parent m

  unfoldable pub attach : List (MessageRow M) → MessageRow M → MessageRow M
  unfolding by_hash
  attach rows m = attach_if m.connected (by_hash m.prev_msg rows) m

  -- The recursion of the query, a generation at a time: the rows whose parent is connected, then the
  -- children of these, with the id of the genesis handed down.
  unfoldable pub generation : List (MessageRow M) → List (MessageRow M)
  unfolding attach
  generation rows = map (attach rows) rows

  unfoldable pub generations : ℕ → List (MessageRow M) → List (MessageRow M)
  generations zero rows = rows
  generations (suc n) rows = generations n (generation rows)

  unfoldable pub count_off : List (MessageRow M) → ℕ
  count_off [] = 0
  count_off (m ∷ rows) = if m.connected then count_off rows else suc (count_off rows)

  -- As many generations as there are rows are enough.
  unfoldable pub do_connect : List (MessageRow M) → List (MessageRow M)
  unfolding generations generation
  do_connect rows = generations (length rows) rows

  -- The number of rows that were updated.
  unfoldable pub attach_tips : MsgDb M → ℕ × MsgDb M
  unfolding do_connect count_off
  attach_tips db =
      let rows = do_connect db.messages in
      (count_off db.messages - count_off rows, set_messages db rows)

  abbrev pub resolve_if : Bool → Option ℕ → Option (MessageRow M) → MessageRow M → MessageRow M
  resolve_if true id parent m = m
  resolve_if false (some id) parent m = m
  resolve_if false none none m = m
  resolve_if false none (some parent) m = record m { prev_msg_id = some parent.message_id }

  unfoldable pub resolve : List (MessageRow M) → MessageRow M → MessageRow M
  unfolding by_hash
  resolve rows m = resolve_if m.connected m.prev_msg_id (by_hash m.prev_msg rows) m

  unfoldable pub resolve_parents : MsgDb M → MsgDb M
  unfolding resolve
  resolve_parents db = set_messages db (map (resolve db.messages) db.messages)
