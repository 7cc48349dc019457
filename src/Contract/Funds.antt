-- ===== src/Contract/Funds.antt =====
-- contracts/modules/mining_game/src/mining_game.rs: what the contract's transactions pay.
use judica_vm.Base.{
  ℕ, ◌+◌, ◌≡◌, refl, sym, ap, ◌∙◌, ◌⊎◌, inl, inr, some, List, [], ◌∷◌, Outcome, done, >>=-eq-done,
  same_done, add, u64, add-eq-done, arith, sum,
}
use judica_vm.Base.Exec.{Result, ok, err, same_ok}
use judica_vm.Base.Map.{BTreeMap, values}
use judica_vm.Base.Order.{nat_ord}
use judica_vm.Base.Text.{Text}
use judica_vm.Envelope.{Key}
use judica_vm.Entity.{EntityId}
use judica_vm.Moves.{FinishReason, time_expired, dominating_player}
use judica_vm.Board.{GameBoard}
use judica_vm.Setup.{GameSetup}
use judica_vm.Finish
use judica_vm.Finish.{
  Rewards, CloseError, get_close_distribution, distribution, read_balances, bitcoin_balances,
  time_expired_rewards, domination_rewards,
}
use judica_vm.Finish.Bounty.{paid}
use judica_vm.Finish.Shared.{Shared, distribution-Shared}
use judica_vm.Money.Reachable.{IsReached}
use judica_vm.Sequencer.{then_try}
use judica_vm.Sequencer.Extract.{Move}
use judica_vm.Contract.{
  GameKernel, Sapio, Verdict, setup_of, key_from, pay_rewards, pay_distribution, close,
  when_expired, when_dominated, get_finished_board, game_end_players_win, game_end_players_lose,
  refund, host_equivocated, sum_amounts, ensure_amount,
}
use judica_vm.Contract.Finished.{IsTrue, get_finished_board-IsTrue}

-- The amount that a template pays: nothing at first, and with each output its amount more.
pub record Pays {T L : Type 0} (sapio : Sapio T L) (amount : T → ℕ) : Type 0 where
  pub amount-template : (funds : ℕ) → amount (sapio.template funds) ≡ 0
  pub amount-add_output :
      (t t' : T) (coin : ℕ) (key : Key)
      → sapio.add_output t coin key ≡ ok t'
      → amount t' ≡ amount t + coin

module _ {E A B : Type 0} where
  then_try-ok :
      (r : Result E A) (f : A → Result E B) {b : B}
      → then_try r f ≡ ok b
      → (a : A) × (r ≡ ok a) × (f a ≡ ok b)
  then_try-ok (ok a) f h = (a, refl, h)
  then_try-ok (err e) f h = cc

module _ {T L : Type 0} (sapio : Sapio T L) (kernel : GameKernel) (amount : T → ℕ)
    (p : Pays sapio amount) where
  pay_rewards_lem :
      (dist : Rewards) (t t' : T)
      → pay_rewards sapio kernel dist t ≡ ok t'
      → amount t' ≡ amount t + paid dist
  unfolding pay_rewards
  pay_rewards_lem [] t t' ran = let is = ap amount (same_ok ran) in omega arith
  pay_rewards_lem ((strkey, coin) ∷ dist) t t' ran =
      let (key, _, added) = then_try-ok (key_from sapio kernel strkey) _ ran in
      let (next, is, rest) = then_try-ok (sapio.add_output t coin key) _ added in
      let here = p.amount-add_output t next coin key is in
      let more = pay_rewards_lem dist next t' rest in omega arith

  refund_lem :
      (players : BTreeMap Key ℕ) (t t' : T)
      → refund sapio kernel players t ≡ ok t'
      → amount t' ≡ amount t + sum (values players)
  unfolding refund
  refund_lem [] t t' ran = let is = ap amount (same_ok ran) in omega arith
  refund_lem ((player, balance) ∷ players) t t' ran =
      let (next, is, rest) = then_try-ok (sapio.add_output t balance player) _ ran in
      let here = p.amount-add_output t next balance player is in
      let more = refund_lem players next t' rest in omega arith

same_some : {A : Type 0} {x y : A} → some x ≡ some y → x ≡ y
same_some h = cc

no_spend :
    {E A C : Type 0} {e : E} {t : A}
    → ◌≡◌ {A = Outcome (Result E A)} (done (err e)) (done (ok t))
    → C
no_spend h = cc

module _ {T L : Type 0} (sapio : Sapio T L) (kernel : GameKernel) (amount : T → ℕ)
    (p : Pays sapio amount) (funds : ℕ) where
  -- The transaction of a board that is finished.
  abbrev pub Closes : GameBoard → T → Type 0
  Closes game t = (amount t ≡ funds) ⊎ (game.users_by_key ≡ [])

  distributes :
      (game : GameBoard) (reason : FinishReason) (host : Text)
      → Finish.game_is_finished game ≡ done (some reason)
      → get_close_distribution game funds host ≡ distribution game funds host (some reason)
  unfolding get_close_distribution
  distributes game reason host over = rw (over) refl

  pays_all :
      (game : GameBoard) (dist : Rewards) (t : T)
      → Shared funds game dist
      → pay_rewards sapio kernel dist (sapio.template funds) ≡ ok t
      → Closes game t
  pays_all game dist t (inr nobody) ran = inr nobody
  pays_all game dist t (inl whole) ran =
      let start = p.amount-template funds in
      let paid_out = pay_rewards_lem sapio kernel amount p dist (sapio.template funds) t ran in
      inl (omega arith)

  close-Closes :
      (game : GameBoard) (reason : FinishReason) (t : T)
      → Finish.game_is_finished game ≡ done (some reason)
      → close sapio kernel funds game ≡ done (ok t)
      → Closes game t
  unfolding close pay_distribution
  close-Closes game reason t over ran =
      let host : Text = sapio.to_string kernel.game_host in
      let (r, got, is) = >>=-eq-done (get_close_distribution game funds host) _ ran in
      let (dist, ok_dist, shared) =
        distribution-Shared game funds host reason r
          (sym (distributes game reason host over) ∙ got) in
      pays_all game dist t shared
        (ap (pay_distribution sapio kernel funds) (sym ok_dist) ∙ same_done is)

  abbrev pub setup : GameSetup
  setup = setup_of sapio kernel

  -- The board that a trace ends with, and what is paid on it.
  abbrev pub Settles : FinishReason → T → Type 0
  Settles reason t =
      (game : GameBoard) × IsReached setup game
      × (Finish.game_is_finished game ≡ done (some reason))
      × Closes game t

  when_expired-Settles :
      (verdict : Verdict) (t : T)
      → IsTrue setup verdict
      → when_expired sapio kernel funds verdict ≡ done (ok t)
      → Settles time_expired t
  unfolding when_expired
  when_expired-Settles (ok (time_expired, game)) t (reached, over) ran =
      (game, reached, over, close-Closes game time_expired t over ran)
  when_expired-Settles (ok (dominating_player id, game)) t true_one ran = no_spend ran
  when_expired-Settles (err game) t true_one ran = no_spend ran

  when_dominated-Settles :
      (verdict : Verdict) (t : T)
      → IsTrue setup verdict
      → when_dominated sapio kernel funds verdict ≡ done (ok t)
      → (id : EntityId) × Settles (dominating_player id) t
  unfolding when_dominated
  when_dominated-Settles (ok (dominating_player id, game)) t (reached, over) ran =
      (id, (game, reached, over, close-Closes game (dominating_player id) t over ran))
  when_dominated-Settles (ok (time_expired, game)) t true_one ran = no_spend ran
  when_dominated-Settles (err game) t true_one ran = no_spend ran

  win-Settles :
      (trace : List Move) (t : T)
      → game_end_players_win sapio kernel funds (some trace) ≡ done (some (ok t))
      → Settles time_expired t
  unfolding game_end_players_win
  win-Settles trace t ran =
      let (verdict, is, rest) = >>=-eq-done (get_finished_board sapio kernel trace) _ ran in
      let (spend, spent, same) = >>=-eq-done (when_expired sapio kernel funds verdict) _ rest in
      when_expired-Settles verdict t (get_finished_board-IsTrue sapio kernel trace verdict is)
        (spent ∙ ap done (same_some (same_done same)))

  lose-Settles :
      (trace : List Move) (t : T)
      → game_end_players_lose sapio kernel funds (some trace) ≡ done (some (ok t))
      → (id : EntityId) × Settles (dominating_player id) t
  unfolding game_end_players_lose
  lose-Settles trace t ran =
      let (verdict, is, rest) = >>=-eq-done (get_finished_board sapio kernel trace) _ ran in
      let (spend, spent, same) = >>=-eq-done (when_dominated sapio kernel funds verdict) _ rest in
      when_dominated-Settles verdict t (get_finished_board-IsTrue sapio kernel trace verdict is)
        (spent ∙ ap done (same_some (same_done same)))

  -- A transaction of either continuation for the end of the game pays out the contract's funds exactly,
  -- or its board has no user. The board is one that the contract's game reaches by messages, and it is
  -- finished. A template is taken to pay nothing at first, and with each output that amount more.
  pub game_end-Settles :
      (trace : List Move) (t : T)
      → (game_end_players_win sapio kernel funds (some trace) ≡ done (some (ok t)))
        ⊎ (game_end_players_lose sapio kernel funds (some trace) ≡ done (some (ok t)))
      → (reason : FinishReason) × Settles reason t
  game_end-Settles trace t (inl ran) = (time_expired, win-Settles trace t ran)
  game_end-Settles trace t (inr ran) =
      let (id, settled) = lose-Settles trace t ran in (dominating_player id, settled)

  sum_amounts_lem :
      (acc : ℕ) (players : BTreeMap Key ℕ) {n : ℕ}
      → sum_amounts sapio kernel acc players ≡ done n
      → n ≡ acc + sum (values players)
  unfolding sum_amounts
  sum_amounts_lem acc [] ran = sym (same_done ran) ∙ omega arith
  sum_amounts_lem acc ((k, a) ∷ players) ran =
      let (acc', is, rest) = >>=-eq-done (add u64 acc a) _ ran in
      let (same, _) = add-eq-done u64 acc a is in
      let more = sum_amounts_lem acc' players rest in omega arith

  -- The refund for a host that equivocates comes to the amount that the contract asks to be funded with.
  pub host_equivocated_lem :
      {D : Type 0} (proof : D) (t : T) (n : ℕ)
      → host_equivocated sapio kernel funds (some proof) ≡ some (ok t)
      → ensure_amount sapio kernel ≡ done n
      → amount t ≡ n
  unfolding host_equivocated ensure_amount
  host_equivocated_lem proof t n ran asked =
      let start = p.amount-template funds in
      let back =
        refund_lem sapio kernel amount p kernel.players (sapio.template funds) t (same_some ran) in
      let whole = sum_amounts_lem 0 kernel.players asked in omega arith
