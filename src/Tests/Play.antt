-- ===== src/Tests/Play.antt =====
-- A game of two players, and the theorems about its messages.
use judica_vm.Base.{
  ◌+◌, ◌<◌, leb, u64, ◌≡◌, refl, arith, Bool, true, false, Option, none, some, List, [], ◌∷◌,
  Outcome, done, panic, sum,
}
use judica_vm.Base.Exec.{ok, and_then}
use judica_vm.Base.Map.{lookup, values}
use judica_vm.Base.Order.{nat_ord, text_ord}
use judica_vm.Base.Text.{Text, ascii}
use judica_vm.Tokens.{TokenBase, TokenPointer}
use judica_vm.Moves.{MoveEnvelope, GameMove, send_tokens, time_expired}
use judica_vm.Board.{GameBoard, coins}
use judica_vm.Setup.{GameSetup}
use judica_vm.NewGame.{new, blank_board}
use judica_vm.Entity.{EntityId}
use judica_vm.Game.{play, play_inner, set_sequence, or_sanitize_error, play_sanitized}
use judica_vm.Game.Sequence.{current_move, IsNext, play_replayed}
use judica_vm.Finish
use judica_vm.Clock.{update_current_time}
use judica_vm.Sanitize.{sanitize}
use judica_vm.Sanitize.Valid.{is_ok, is_valid, sanitize_lem}
use judica_vm.Money.Reachable.{
  IsSolvent, started, played, IsReached-IsSolvent, play_inner_conserves,
}

abbrev pub bob : Text
bob = ascii "bob"

abbrev pub alice : Text
alice = ascii "alice"

abbrev pub setup : GameSetup
setup = record {
  players = bob ∷ alice ∷ bob ∷ [];
  start_amount = 10_000_000;
  finish_time = 100_000;
}

abbrev pub nobody : TokenBase
nobody = record { balances = []; total = 0; this = 0; nickname = none }

-- The board of a result; the blank one if there is none.
abbrev pub board_of : Outcome GameBoard → GameBoard
unfolding blank_board
board_of (done g) = g
board_of panic = blank_board nobody nobody nobody nobody nobody nobody 0 0

abbrev pub next_of : {A : Type 0} → Outcome (A × GameBoard) → GameBoard
next_of (done (_, g)) = g
next_of panic = board_of panic

unfoldable pub first : GameBoard
unfolding new
first = board_of (new setup)

first_is_new : new setup ≡ done first
unfolding first judica_vm.Base.Order.text_cmp lookup judica_vm.Base.Map.insert
    judica_vm.TradingPair.pair_cmp judica_vm.Base.mul
first_is_new = refl

abbrev pub pay : GameMove
pay = send_tokens (record { to = 3_235_774_473; amount = 10; currency = 3_235_774_465 })

abbrev pub message : MoveEnvelope
message = record { d = pay; sequence = 1; time_millis = 500 }

unfoldable pub second : GameBoard
unfolding play first
second = next_of (play message alice first)

second_is_next : play message alice first ≡ done (ok tt, second)
unfolding second play lookup judica_vm.Base.Order.text_cmp judica_vm.Base.Map.insert
    judica_vm.TradingPair.pair_cmp judica_vm.Payout.power_plant_action
    judica_vm.Producers.Asics.asic_action judica_vm.Tokens.burn judica_vm.Tokens.total_coins
    judica_vm.Quote.roundup_div judica_vm.Producers.Steel.steel_action
    judica_vm.Producers.Silicon.silicon_action judica_vm.Producers.Concrete.concrete_action
second_is_next = refl

first_IsSolvent : IsSolvent first
first_IsSolvent = IsReached-IsSolvent setup (started first_is_new)

IsReached-IsSolvent_example : IsSolvent second
IsReached-IsSolvent_example =
    IsReached-IsSolvent setup (played message alice (ok tt) (started first_is_new) second_is_next)

abbrev pub bitcoin : TokenPointer
bitcoin = 3_235_774_465

abbrev pub alice_id : EntityId
alice_id = 3_235_774_472

abbrev pub bob_id : EntityId
bob_id = 3_235_774_473

abbrev token_or_nobody : Option TokenBase → TokenBase
token_or_nobody none = nobody
token_or_nobody (some t) = t

unfoldable sats : TokenBase
unfolding first lookup
sats = token_or_nobody (lookup bitcoin (coins first))

first_sats : lookup bitcoin (coins first) ≡ some sats
unfolding sats judica_vm.Base.Order.text_cmp judica_vm.Base.Map.insert
    judica_vm.TradingPair.pair_cmp judica_vm.Base.mul
first_sats = refl

unfoldable paid_out : GameBoard
unfolding play_inner first
paid_out = next_of (play_inner pay alice_id first)

paid_out_is_next : play_inner pay alice_id first ≡ done (ok tt, paid_out)
unfolding paid_out lookup judica_vm.Base.Order.text_cmp judica_vm.Base.Map.insert
    judica_vm.TradingPair.pair_cmp judica_vm.Tokens.burn
paid_out_is_next = refl

play_inner_conserves_example :
    (t' : TokenBase) × (lookup bitcoin (coins paid_out) ≡ some t')
    × (t'.total ≡ sats.total)
    × (sum (values t'.balances) ≡ sats.total)
play_inner_conserves_example =
    play_inner_conserves pay alice_id first paid_out (ok tt) bitcoin sats first_IsSolvent first_sats
      paid_out_is_next

alice_is_known : lookup alice first.users_by_key ≡ some alice_id
unfolding first lookup judica_vm.Base.Order.text_cmp judica_vm.Base.Map.insert
    judica_vm.TradingPair.pair_cmp judica_vm.Base.mul
alice_is_known = refl

first_goes_on : Finish.game_is_finished first ≡ done none
unfolding first Finish.game_is_finished judica_vm.Base.Order.text_cmp lookup
    judica_vm.Base.Map.insert judica_vm.TradingPair.pair_cmp
first_goes_on = refl

abbrev skipping : MoveEnvelope
skipping = record message { sequence = 5 }

no_sequence : current_move alice_id first ≡ 0
unfolding first lookup judica_vm.Base.Order.text_cmp judica_vm.Base.Map.insert
    judica_vm.TradingPair.pair_cmp judica_vm.Base.mul
no_sequence = refl

small_sequence : current_move alice_id first + 1 < u64
small_sequence = rw no_sequence (omega arith)

play_replayed_example :
    (IsNext (current_move alice_id first) 5
      → play skipping alice first
        ≡ and_then
            (or_sanitize_error (
              sanitize
                (set_sequence alice_id 5
                  (set_sequence alice_id (current_move alice_id first) first))
                skipping.d))
            (play_sanitized alice_id skipping.time_millis)
            (set_sequence alice_id 5 (set_sequence alice_id (current_move alice_id first) first)))
    × (¬ IsNext (current_move alice_id first) 5
        → play skipping alice first
          ≡ done (ok tt, set_sequence alice_id (current_move alice_id first) first))
play_replayed_example =
    play_replayed skipping alice first alice_id alice_is_known first_goes_on small_sequence

-- The same board, with its time run out.
abbrev ended : GameBoard
unfolding first
ended = record first { finish_time = 0 }

alice_is_there : lookup alice ended.users_by_key ≡ some alice_id
unfolding first lookup judica_vm.Base.Order.text_cmp judica_vm.Base.Map.insert
    judica_vm.TradingPair.pair_cmp judica_vm.Base.mul
alice_is_there = refl

ended_is_over : Finish.game_is_finished ended ≡ done (some time_expired)
unfolding first Finish.game_is_finished judica_vm.Base.Order.text_cmp lookup
    judica_vm.Base.Map.insert judica_vm.TradingPair.pair_cmp
ended_is_over = refl

no_events : ended.event_log_counter ≡ 0
unfolding first judica_vm.Base.Order.text_cmp lookup judica_vm.Base.Map.insert
    judica_vm.TradingPair.pair_cmp judica_vm.Base.mul
no_events = refl

small_counter : ended.event_log_counter + 1 < u64
small_counter = rw no_events (omega arith)

unfoldable later : GameBoard
unfolding update_current_time first
later = next_of (update_current_time alice_id 700 first)

sanitize_lem_example :
    (is_ok (sanitize first pay) ≡ is_valid first pay)
    × (is_valid first pay ≡ true → sanitize first pay ≡ ok pay)
sanitize_lem_example = sanitize_lem first pay
