-- ===== src/Game.antt =====
-- `play` and `play_inner` of common/mine-with-friends-board/src/game/mod.rs, with the logs.
pub mod Sequence
pub mod Logs
pub mod Ended
use judica_vm.Base.{
  ℕ, ◌+◌, ◌-◌, Bool, true, false, not, ◌&&◌, ◌||◌, Option, none, some, List, [], ◌∷◌, ◌++◌, Outcome,
  done, panic, unwrap, add, u64, leb, ltb, ◌==◌, if◌then◌else◌, length, pop_front,
}
use judica_vm.Base.Exec.{Result, ok, err, pure, lift, gets, modify, ◌>>=◌, ◌>>◌, and_then}
use judica_vm.Base.Order.{nat_ord, text_ord}
use judica_vm.Base.Map.{lookup, insert, get_or_zero}
use judica_vm.Base.Text.{Text, ascii}
use judica_vm.Entity.{EntityId, to_hex}
use judica_vm.Nfts.{BaseNft, PowerPlant, NftPtr}
use judica_vm.Moves
use judica_vm.Moves.{
  GameMove, heartbeat, trade, purchase_nft, list_nft_for_sale, send_tokens, remove_tokens, chat,
  mint_power_plant, super_mint_power_plant, Trade, RemoveTokens, MoveEnvelope, TradeError,
  TradeOutcome, FinishReason, MoveRejectReason, no_such_user, game_is_finished,
  move_sanitization_error, trade_rejected, LogEvent, game_move, move_reject_reason,
}
use judica_vm.Board.{GameBoard, Game, nft_at}
use judica_vm.Market.{transfer_on}
use judica_vm.Trade.{do_buy_trade, do_sell_trade}
use judica_vm.Plants.{reading, ship_hashrate}
use judica_vm.Minting
use judica_vm.Sales.{purchase, list_nft}
use judica_vm.Callbacks.{run}
use judica_vm.Sanitize.{sanitize}
use judica_vm.Clock.{update_current_time}
use judica_vm.Finish

-- The message log and the event log keep the last 1000 entries.
abbrev pub log_size : ℕ
log_size = 1000

unfoldable pub push_back {ℓ} : {A : Type ℓ} → A → List A → List A
push_back x log = (if leb log_size (length log) then pop_front log else log) ++ x ∷ []

unfoldable pub log_event : EntityId → LogEvent → ℕ → GameBoard → GameBoard
unfolding push_back
log_event from e n g = record g {
  event_log_counter = n;
  event_log = push_back (n, from, e) g.event_log;
}

-- `add_to_event_log`
unfoldable pub add_to_event_log : EntityId → LogEvent → Game Unit
unfolding ◌>>=◌ log_event add
add_to_event_log from e = do
  counter ← gets (λ g. g.event_log_counter)
  n ← lift (add u64 counter 1)
  modify (log_event from e n)

-- `str::starts_with`, `is_ascii`, and `split_at` the first space.
unfoldable pub starts_with : Text → Text → Bool
starts_with [] s = true
starts_with (c ∷ p) [] = false
starts_with (c ∷ p) (d ∷ s) = c == d && starts_with p s

unfoldable pub is_ascii : Text → Bool
is_ascii [] = true
is_ascii (c ∷ s) = ltb c 128 && is_ascii s

unfoldable pub from_space : Text → Text
from_space [] = []
from_space (c ∷ s) = if c == 32 then c ∷ s else from_space s

-- The nickname that a message asks for.
unfoldable pub nick_of : Text → Option Text
unfolding starts_with is_ascii from_space
nick_of s =
    if starts_with (ascii "/nick") s && is_ascii s && ltb (length s) 32
    then some (from_space s)
    else none

unfoldable pub set_nick : EntityId → Text → GameBoard → GameBoard
set_nick from nick g = record g { nicks = insert from nick g.nicks }

unfoldable pub rename : EntityId → Text → Option Text → Game Text
unfolding ◌>>=◌ set_nick to_hex
rename from s none = pure s
rename from s (some nick) = do
  modify (set_nick from nick)
  pure (to_hex from ++ ascii " is now known as " ++ nick)

unfoldable pub log_chat : EntityId → Text → ℕ → GameBoard → GameBoard
unfolding push_back
log_chat from s n g = record g { chat_counter = n; chat = push_back (n, from, s) g.chat }

unfoldable pub play_chat : EntityId → Text → Game Unit
unfolding ◌>>=◌ nick_of rename log_chat add
play_chat from s = do
  said ← rename from s (nick_of s)
  counter ← gets (λ g. g.chat_counter)
  n ← lift (add u64 counter 1)
  modify (log_chat from said n)

unfoldable pub play_removal : EntityId → RemoveTokens → Game Unit
unfolding ◌>>=◌ nft_at ship_hashrate
play_removal from r = do
  nft ← nft_at r.nft_id
  if not (nft.owner == from) then pure tt else do
    found ← gets (λ g. lookup r.nft_id g.nfts.power_plants)
    plant ← lift (unwrap found)
    ship_hashrate plant r.currency r.amount 1

unfoldable pub play_trade : EntityId → Trade → Game (Result TradeError TradeOutcome)
unfolding do_sell_trade do_buy_trade
play_trade from t =
    if t.sell
    then do_sell_trade t.pair t.amount_a t.amount_b t.cap false from
    else do_buy_trade t.pair t.amount_a t.amount_b t.cap false from

-- `?` with the conversion of a `TradeError`.
unfoldable pub or_reject : {A : Type 0} → Result TradeError A → Game (Result MoveRejectReason Unit)
unfolding ◌>>=◌
or_reject (ok _) = pure (ok tt)
or_reject (err e) = pure (err (trade_rejected e))

-- `play_inner`
unfoldable pub play_inner : GameMove → EntityId → Game (Result MoveRejectReason Unit)
unfolding ◌>>=◌ play_trade or_reject purchase list_nft transfer_on play_removal play_chat
    Minting.mint_power_plant Minting.super_mint
play_inner heartbeat from = pure (ok tt)
play_inner (trade t) from = do r ← play_trade from t; or_reject r
play_inner (mint_power_plant m) from = do
  r ← Minting.mint_power_plant m.scale m.location m.plant_type from
  or_reject r
play_inner (super_mint_power_plant m) from = do
  r ← Minting.super_mint m.scale m.location m.plant_type from
  or_reject r
play_inner (purchase_nft p) from = do purchase from p.nft_id p.limit_price p.currency; pure (ok tt)
play_inner (list_nft_for_sale l) from = do list_nft from l.nft_id l.price l.currency; pure (ok tt)
play_inner (send_tokens s) from = do transfer_on s.currency from s.to s.amount; pure (ok tt)
play_inner (remove_tokens r) from = do play_removal from r; pure (ok tt)
play_inner (chat s) from = do play_chat from s; pure (ok tt)

unfoldable pub log_rejection :
    EntityId → Result MoveRejectReason Unit → Game (Result MoveRejectReason Unit)
unfolding ◌>>=◌ add_to_event_log
log_rejection from (ok u) = pure (ok u)
log_rejection from (err e) = do add_to_event_log from (move_reject_reason e); pure (err e)

unfoldable pub set_sequence : EntityId → ℕ → GameBoard → GameBoard
set_sequence from n g = record g { player_move_sequence = insert from n g.player_move_sequence }

-- A move in sequence, sanitized against the board.
unfoldable pub play_sanitized : EntityId → ℕ → GameMove → Game (Result MoveRejectReason Unit)
unfolding ◌>>=◌ update_current_time run add_to_event_log play_inner log_rejection
play_sanitized from time_millis mv = do
  update_current_time from time_millis
  run
  add_to_event_log from (game_move mv)
  r ← play_inner mv from
  log_rejection from r

unfoldable pub or_sanitize_error :
    {A : Type 0} → Result Moves.SanitizationError A → Result MoveRejectReason A
or_sanitize_error (ok a) = ok a
or_sanitize_error (err e) = err (move_sanitization_error e)

-- The test that a sequence number fails.
unfoldable pub out_of_sequence : ℕ → ℕ → ℕ → Bool
out_of_sequence current next sequence =
    not (next == sequence) && not (current == 0 && sequence == 0)

unfoldable pub play_in_sequence : EntityId → MoveEnvelope → Game (Result MoveRejectReason Unit)
unfolding ◌>>=◌ out_of_sequence set_sequence sanitize or_sanitize_error and_then play_sanitized add
play_in_sequence from e = do
  current_move ← gets (λ g. get_or_zero (lookup from g.player_move_sequence))
  modify (set_sequence from current_move)
  next ← lift (add u64 current_move 1)
  if out_of_sequence current_move next e.sequence then pure (ok tt) else do
    modify (set_sequence from e.sequence)
    sanitized ← gets (λ g. or_sanitize_error (sanitize g e.d))
    and_then sanitized (play_sanitized from e.time_millis)

unfoldable pub when_finished :
    EntityId → MoveEnvelope → Option FinishReason → Game (Result MoveRejectReason Unit)
unfolding ◌>>=◌ add_to_event_log play_in_sequence
when_finished from e none = play_in_sequence from e
when_finished from e (some reason) = do
  add_to_event_log from (move_reject_reason (game_is_finished reason))
  pure (err (game_is_finished reason))

unfoldable pub play_from : MoveEnvelope → Option EntityId → Game (Result MoveRejectReason Unit)
unfolding ◌>>=◌ reading Finish.game_is_finished when_finished
play_from e none = pure (err no_such_user)
play_from e (some from) = do
  finished ← reading Finish.game_is_finished
  when_finished from e finished

-- `play`
unfoldable pub play : MoveEnvelope → Text → Game (Result MoveRejectReason Unit)
unfolding ◌>>=◌ play_from
play e signed_by = do from ← gets (λ g. lookup signed_by g.users_by_key); play_from e from
