-- ===== src/Contract.antt =====
-- contracts/modules/mining_game/src/mining_game.rs: the contract that holds the players' funds, with
-- `GameKernel` of common/simps/src/lib.rs.
pub mod Finished
pub mod Funds
use judica_vm.Base.{
  ℕ, ◌+◌, Bool, Option, none, some, List, [], ◌∷◌, ◌++◌, Outcome, done, panic, ◌>>=◌, add, u64,
}
use judica_vm.Base.Exec.{Result, ok, err}
use judica_vm.Base.Map.{BTreeMap, keys}
use judica_vm.Base.Text.{Text, ascii}
use judica_vm.Envelope.{Key}
use judica_vm.Moves.{
  MoveRejectReason, FinishReason, time_expired, dominating_player, no_such_user, game_is_finished,
  move_sanitization_error, trade_rejected,
}
use judica_vm.Board.{GameBoard}
use judica_vm.Setup.{GameSetup}
use judica_vm.NewGame.{new}
use judica_vm.Game.{play}
use judica_vm.Finish.{Rewards, CloseError, get_close_distribution}
use judica_vm.Sequencer.{then_try}
use judica_vm.Sequencer.Extract.{Move}

-- The players and what each has put in.
pub record GameKernel : Type 0 where
  pub game_host : Key
  pub players : BTreeMap Key ℕ
  pub timeout : ℕ

-- `D` and `H` are the proofs of equivocation and the block headers of common/simps.
pub data GameEnd (D H : Type 0) : Type 0 where
  host_cheat_equivocate : D → GameEnd D H
  host_cheat_censor : GameEnd D H
  players_win : List Move → GameEnd D H
  players_lose : List Move → GameEnd D H
  degrade : H → GameEnd D H

-- The library's error type: what the contract makes, and in `library` what the library makes.
pub data CompilationError (L : Type 0) : Type 0 where
  continuation_coercion : Text → CompilationError L
  terminate_with : Text → CompilationError L
  library : L → CompilationError L

abbrev pub Verdict : Type 0
Verdict = Result GameBoard (FinishReason × GameBoard)

-- What the contract uses of its libraries: the text form of keys, the text of a verdict for an error
-- message, and transaction templates, which start empty and get outputs.
pub record Sapio (T L : Type 0) : Type 0 where
  pub to_string : Key → Text
  pub from_str : Text → Option Key
  pub debug : Verdict → Text
  pub template : ℕ → T
  pub add_output : T → ℕ → Key → Result (CompilationError L) T

abbrev pub Coerced : Type 0 → Type 0 → Type 0
Coerced L A = Result (CompilationError L) (Option A)

unfoldable pub failed_to : {L A : Type 0} → Text → Coerced L A
failed_to what = err (continuation_coercion (ascii "Failed to coerce GameEnd into " ++ what))

-- Each continuation takes its own kind of end, or none.
module _ {L D H : Type 0} where
  unfoldable pub coerce_dlog_discovered : Option (GameEnd D H) → Coerced L D
  coerce_dlog_discovered none = ok none
  coerce_dlog_discovered (some (host_cheat_equivocate d)) = ok (some d)
  coerce_dlog_discovered (some host_cheat_censor) = failed_to (ascii "HostKey")
  coerce_dlog_discovered (some (players_win ms)) = failed_to (ascii "HostKey")
  coerce_dlog_discovered (some (players_lose ms)) = failed_to (ascii "HostKey")
  coerce_dlog_discovered (some (degrade l)) = failed_to (ascii "HostKey")

  unfoldable pub coerce_censorship_proof : Option (GameEnd D H) → Coerced L (Unit {0})
  coerce_censorship_proof none = ok none
  coerce_censorship_proof (some (host_cheat_equivocate d)) = failed_to (ascii "CensorshipProof")
  coerce_censorship_proof (some host_cheat_censor) = ok (some tt)
  coerce_censorship_proof (some (players_win ms)) = failed_to (ascii "CensorshipProof")
  coerce_censorship_proof (some (players_lose ms)) = failed_to (ascii "CensorshipProof")
  coerce_censorship_proof (some (degrade l)) = failed_to (ascii "CensorshipProof")

  unfoldable pub coerce_players_win : Option (GameEnd D H) → Coerced L (List Move)
  coerce_players_win none = ok none
  coerce_players_win (some (host_cheat_equivocate d)) = failed_to (ascii "PlayersWin")
  coerce_players_win (some host_cheat_censor) = failed_to (ascii "PlayersWin")
  coerce_players_win (some (players_win ms)) = ok (some ms)
  coerce_players_win (some (players_lose ms)) = failed_to (ascii "PlayersWin")
  coerce_players_win (some (degrade l)) = failed_to (ascii "PlayersWin")

  unfoldable pub coerce_players_lose : Option (GameEnd D H) → Coerced L (List Move)
  coerce_players_lose none = ok none
  coerce_players_lose (some (host_cheat_equivocate d)) = failed_to (ascii "ExtractedMoveEnvelopes")
  coerce_players_lose (some host_cheat_censor) = failed_to (ascii "ExtractedMoveEnvelopes")
  coerce_players_lose (some (players_win ms)) = failed_to (ascii "ExtractedMoveEnvelopes")
  coerce_players_lose (some (players_lose ms)) = ok (some ms)
  coerce_players_lose (some (degrade l)) = failed_to (ascii "ExtractedMoveEnvelopes")

  unfoldable pub coerce_degrade : Option (GameEnd D H) → Coerced L H
  coerce_degrade none = ok none
  coerce_degrade (some (host_cheat_equivocate d)) = failed_to (ascii "Degrade")
  coerce_degrade (some host_cheat_censor) = failed_to (ascii "Degrade")
  coerce_degrade (some (players_win ms)) = failed_to (ascii "Degrade")
  coerce_degrade (some (players_lose ms)) = failed_to (ascii "Degrade")
  coerce_degrade (some (degrade l)) = ok (some l)

module _ {T L : Type 0} (sapio : Sapio T L) (kernel : GameKernel) where
  abbrev pub key_texts : List Key → List Text
  key_texts [] = []
  key_texts (k ∷ ks) = sapio.to_string k ∷ key_texts ks

  abbrev pub setup_of : GameSetup
  setup_of = record {
    players = key_texts (keys kernel.players);
    start_amount = 100_000_000;
    finish_time = kernel.timeout;
  }

  -- The loop over the trace: it ends at the first move that the finished game rejects.
  unfoldable pub play_trace : List Move → GameBoard → Outcome Verdict
  unfolding play
  play_trace [] game = done (err game)
  play_trace ((mv, pk) ∷ trace) game = do
    (played, game') ← play mv (sapio.to_string pk) game
    elim played [
      | err (game_is_finished g) ↦ done (ok (g, game'))
      | err no_such_user ↦ play_trace trace game'
      | err (move_sanitization_error _) ↦ play_trace trace game'
      | err (trade_rejected _) ↦ play_trace trace game'
      | ok _ ↦ play_trace trace game'
    ]

  unfoldable pub get_finished_board : List Move → Outcome Verdict
  unfolding new play_trace
  get_finished_board trace = do game ← new setup_of; play_trace trace game

  abbrev pub Spend : Type 0
  Spend = Result (CompilationError L) T

  abbrev pub key_from : Text → Result (CompilationError L) Key
  key_from strkey = elim (sapio.from_str strkey) [
    | some key ↦ ok key
    | none ↦ err (terminate_with (ascii "Corrupt GameBoard, Invalid Key: " ++ strkey))
  ]

  unfoldable pub pay_rewards : Rewards → T → Spend
  pay_rewards [] tmpl = ok tmpl
  pay_rewards ((strkey, coin) ∷ dist) tmpl =
      then_try (key_from strkey)
        (λ key. then_try (sapio.add_output tmpl coin key) (λ next. pay_rewards dist next))

  unfoldable pub pay_distribution : ℕ → Result CloseError Rewards → Spend
  unfolding pay_rewards
  pay_distribution total_bitcoin (err _) =
      err (terminate_with (ascii "Game Not Finished, Violating Invariant that was finished"))
  pay_distribution total_bitcoin (ok dist) = pay_rewards dist (sapio.template total_bitcoin)

  -- The players' funds are shared by the final board.
  unfoldable pub close : ℕ → GameBoard → Outcome Spend
  unfolding get_close_distribution pay_distribution
  close total_bitcoin game = do
    dist ← get_close_distribution game total_bitcoin (sapio.to_string kernel.game_host)
    done (pay_distribution total_bitcoin dist)

  unfoldable pub when_expired : ℕ → Verdict → Outcome Spend
  unfolding close
  when_expired funds (ok (time_expired, game)) = close funds game
  when_expired funds (ok (dominating_player id, game)) =
      done (err (terminate_with (sapio.debug (ok (dominating_player id, game)))))
  when_expired funds (err game) = done (err (terminate_with (sapio.debug (err game))))

  unfoldable pub when_dominated : ℕ → Verdict → Outcome Spend
  unfolding close
  when_dominated funds (ok (dominating_player id, game)) = close funds game
  when_dominated funds (ok (time_expired, game)) =
      done (err (terminate_with (sapio.debug (ok (time_expired, game)))))
  when_dominated funds (err game) = done (err (terminate_with (sapio.debug (err game))))

  -- `empty()` without a trace, and else the one transaction.
  unfoldable pub game_end_players_win : ℕ → Option (List Move) → Outcome (Option Spend)
  unfolding get_finished_board when_expired
  game_end_players_win funds none = done none
  game_end_players_win funds (some trace) = do
    verdict ← get_finished_board trace
    spend ← when_expired funds verdict
    done (some spend)

  unfoldable pub game_end_players_lose : ℕ → Option (List Move) → Outcome (Option Spend)
  unfolding get_finished_board when_dominated
  game_end_players_lose funds none = done none
  game_end_players_lose funds (some trace) = do
    verdict ← get_finished_board trace
    spend ← when_dominated funds verdict
    done (some spend)

  -- Each player gets back what it has put in.
  unfoldable pub refund : BTreeMap Key ℕ → T → Spend
  refund [] tmpl = ok tmpl
  refund ((player, balance) ∷ players) tmpl =
      then_try (sapio.add_output tmpl balance player) (λ next. refund players next)

  -- The check of the proof is switched off in the code.
  unfoldable pub host_equivocated : {D : Type 0} → ℕ → Option D → Option Spend
  unfolding refund
  host_equivocated funds none = none
  host_equivocated funds (some k) = some (refund kernel.players (sapio.template funds))

  -- `Amount::sum` of the players' amounts
  unfoldable pub sum_amounts : ℕ → BTreeMap Key ℕ → Outcome ℕ
  unfolding add
  sum_amounts acc [] = done acc
  sum_amounts acc ((_, amount) ∷ players) = do acc' ← add u64 acc amount; sum_amounts acc' players

  unfoldable pub ensure_amount : Outcome ℕ
  unfolding sum_amounts
  ensure_amount = sum_amounts 0 kernel.players
