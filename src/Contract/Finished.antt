-- ===== src/Contract/Finished.antt =====
-- contracts/modules/mining_game/src/mining_game.rs: the board that `get_finished_board` ends with.
use judica_vm.Base.{
  ◌≡◌, refl, sym, subst, ◌∙◌, some, List, [], ◌∷◌, Outcome, done, panic, ◌⊎◌, inl, inr, ap,
  Outcome-cases, no_value, >>=-eq-done,
}
use judica_vm.Base.Exec.{ok, err}
use judica_vm.Envelope.{Key}
use judica_vm.Moves.{
  MoveEnvelope, FinishReason, no_such_user, game_is_finished, move_sanitization_error,
  trade_rejected,
}
use judica_vm.Board.{GameBoard}
use judica_vm.Setup.{GameSetup}
use judica_vm.NewGame.{new}
use judica_vm.Finish
use judica_vm.Game.{play}
use judica_vm.Game.Ended.{Answer, IsPlayed, play-ended}
use judica_vm.Money.Reachable.{IsReached, started, played}
use judica_vm.Sequencer.Extract.{Move}
use judica_vm.Contract.{GameKernel, Sapio, Verdict, play_trace, get_finished_board, setup_of}

-- A verdict names a board of the game, and its reason is why that board is finished.
abbrev pub IsTrue : GameSetup → Verdict → Type 0
IsTrue setup (ok (reason, game)) =
    IsReached setup game × (Finish.game_is_finished game ≡ done (some reason))
IsTrue setup (err game) = IsReached setup game

same_verdict : {x y : Verdict} → ◌≡◌ {A = Outcome Verdict} (done x) (done y) → x ≡ y
same_verdict h = cc

module _ {T L : Type 0} (sapio : Sapio T L) (kernel : GameKernel) where
  -- What becomes of the trace after its first move.
  module _ (mv : MoveEnvelope) (pk : Key) (trace : List Move) (game : GameBoard) where
    abbrev answer_to : Outcome (Answer × GameBoard)
    answer_to = play mv (sapio.to_string pk) game

    trace_stops : answer_to ≡ panic → play_trace sapio kernel ((mv, pk) ∷ trace) game ≡ panic
    unfolding play_trace
    trace_stops is = rw (is) refl

    trace_ends :
        (reason : FinishReason) (game' : GameBoard)
        → answer_to ≡ done (err (game_is_finished reason), game')
        → play_trace sapio kernel ((mv, pk) ∷ trace) game ≡ done (ok (reason, game'))
    unfolding play_trace
    trace_ends reason game' is = rw (is) refl

    trace_goes :
        (answer : Answer) (game' : GameBoard)
        → IsPlayed answer
        → answer_to ≡ done (answer, game')
        → play_trace sapio kernel ((mv, pk) ∷ trace) game ≡ play_trace sapio kernel trace game'
    unfolding play_trace
    trace_goes (ok u) game' other is = rw (is) refl
    trace_goes (err no_such_user) game' other is = rw (is) refl
    trace_goes (err (game_is_finished reason)) game' other is = elim (other reason refl) [ ]
    trace_goes (err (move_sanitization_error e)) game' other is = rw (is) refl
    trace_goes (err (trade_rejected e)) game' other is = rw (is) refl

  -- An answer is the end of the game or another.
  ended_or_not :
      (answer : Answer)
      → ((r : FinishReason) × (answer ≡ err (game_is_finished r))) ⊎ IsPlayed answer
  ended_or_not (ok u) = inr (λ reason h. cc)
  ended_or_not (err no_such_user) = inr (λ reason h. cc)
  ended_or_not (err (game_is_finished reason)) = inl (reason, refl)
  ended_or_not (err (move_sanitization_error e)) = inr (λ reason h. cc)
  ended_or_not (err (trade_rejected e)) = inr (λ reason h. cc)

  play_trace-IsTrue :
      (setup : GameSetup) (trace : List Move) (game : GameBoard) (verdict : Verdict)
      → IsReached setup game
      → play_trace sapio kernel trace game ≡ done verdict
      → IsTrue setup verdict
  unfolding play_trace
  play_trace-IsTrue setup [] game verdict before ran =
      subst (IsTrue setup) (same_verdict ran) before
  play_trace-IsTrue setup ((mv, pk) ∷ trace) game verdict before ran =
      elim (Outcome-cases (play mv (sapio.to_string pk) game)) [
        | inl stop ↦
            no_value (play_trace sapio kernel ((mv, pk) ∷ trace) game) verdict
              (trace_stops mv pk trace game stop) ran
        | inr ((answer, game'), is) ↦
            let after : IsReached setup game' = played mv (sapio.to_string pk) answer before is in
            elim (ended_or_not answer) [
              | inl (reason, end) ↦
                  let is' = is ∙ ap (λ a. done (a, game')) end in
                  subst (IsTrue setup)
                    (same_verdict (sym (trace_ends mv pk trace game reason game' is') ∙ ran))
                    (after, play-ended mv (sapio.to_string pk) game game' reason is')
              | inr other ↦
                  play_trace-IsTrue setup trace game' verdict after
                    (sym (trace_goes mv pk trace game answer game' other is) ∙ ran)
            ]
      ]

  -- The board that a trace of moves ends with is one that the contract's game reaches by messages. If a
  -- move was rejected because the game is finished, that board is itself finished for that reason.
  pub get_finished_board-IsTrue :
      (trace : List Move) (verdict : Verdict)
      → get_finished_board sapio kernel trace ≡ done verdict
      → IsTrue (setup_of sapio kernel) verdict
  unfolding get_finished_board
  get_finished_board-IsTrue trace verdict ran =
      let setup : GameSetup = setup_of sapio kernel in
      let (game, is, rest) = >>=-eq-done (new setup) (play_trace sapio kernel trace) ran in
      play_trace-IsTrue setup trace game verdict (started is) rest
