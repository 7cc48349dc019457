-- ===== src/Tests/Contracts.antt =====
-- The contract at concrete inputs: two players, and a game that is over at once.
use judica_vm.Base.{
  ℕ, ◌+◌, ◌≡◌, refl, ◌⊎◌, inl, inr, none, some, List, [], ◌∷◌, Outcome, done, panic, arith, sum,
  Bool, true, false,
}
use judica_vm.Base.Exec.{ok, err}
use judica_vm.Base.Map.{values}
use judica_vm.Base.Text.{ascii}
use judica_vm.Envelope.{Key}
use judica_vm.Moves.{FinishReason, time_expired, heartbeat}
use judica_vm.Tests.Play.{board_of}
use judica_vm.Sequencer.Extract.{Move}
use judica_vm.Contract.{
  GameKernel, Sapio, Verdict, get_finished_board, game_end_players_win, setup_of,
}
use judica_vm.Contract.Finished.{IsTrue, get_finished_board-IsTrue}
use judica_vm.Contract.Funds.{Pays, Settles, game_end-Settles}

abbrev Outputs : Type 0
Outputs = List (Key × ℕ)

abbrev sapio : Sapio Outputs (Unit {0})
sapio = record {
  to_string = λ key. key;
  from_str = λ text. some text;
  debug = λ verdict. [];
  template = λ funds. [];
  add_output = λ outputs coin key. ok ((key, coin) ∷ outputs);
}

abbrev amount : Outputs → ℕ
amount outputs = sum (values outputs)

one_more :
    (t t' : Outputs) (coin : ℕ) (key : Key)
    → sapio.add_output t coin key ≡ ok t'
    → amount t' ≡ amount t + coin
one_more t t' coin key h = ground arith

sapio-Pays : Pays sapio amount
sapio-Pays = record { amount-template = λ funds. refl; amount-add_output = one_more }

abbrev kernel : GameKernel
kernel = record {
  game_host = ascii "host";
  players = (ascii "alice", 60) ∷ (ascii "bob", 41) ∷ [];
  timeout = 0;
}

abbrev trace : List Move
trace =
    (record { d = heartbeat; sequence = 1; time_millis = 10 }, ascii "carol")
    ∷ (record { d = heartbeat; sequence = 1; time_millis = 10 }, ascii "bob")
    ∷ []

abbrev is_expired : Outcome Verdict → Bool
is_expired (done (ok (time_expired, game))) = true
is_expired _ = false

expired : is_expired (get_finished_board sapio kernel trace) ≡ true
unfolding get_finished_board judica_vm.Base.Order.text_cmp judica_vm.Base.Map.lookup
    judica_vm.Base.Map.insert judica_vm.TradingPair.pair_cmp
expired = refl

abbrev verdict_of : Outcome Verdict → Verdict
verdict_of (done verdict) = verdict
verdict_of panic = err (board_of panic)

unfoldable verdict : Verdict
unfolding get_finished_board
verdict = verdict_of (get_finished_board sapio kernel trace)

verdict_found : get_finished_board sapio kernel trace ≡ done verdict
unfolding verdict judica_vm.Base.Order.text_cmp judica_vm.Base.Map.lookup judica_vm.Base.Map.insert
    judica_vm.TradingPair.pair_cmp
verdict_found = refl

get_finished_board-IsTrue_example : IsTrue (setup_of sapio kernel) verdict
get_finished_board-IsTrue_example =
    get_finished_board-IsTrue sapio kernel trace verdict verdict_found

abbrev outputs : Outputs
outputs = (ascii "bob", 50) ∷ (ascii "alice", 51) ∷ []

won : game_end_players_win sapio kernel 101 (some trace) ≡ done (some (ok outputs))
unfolding game_end_players_win judica_vm.Base.Order.text_cmp judica_vm.Base.Map.lookup
    judica_vm.Base.Map.insert judica_vm.TradingPair.pair_cmp
won = refl

game_end-Settles_example :
    (reason : FinishReason) × Settles sapio kernel amount sapio-Pays 101 reason outputs
game_end-Settles_example =
    game_end-Settles sapio kernel amount sapio-Pays 101 trace outputs (inl won)
