-- ===== src/Money/Trading.antt =====
-- Swaps and trades keep every invariant of the coins.
use judica_vm.Base.{ℕ, Bool, Option, none, some, Outcome, done, panic}
use judica_vm.Base.Exec.{
  Result, ok, err, Preserves, Preserves-modify, Preserves-pure, After, preserves_rules, modify,
}
use judica_vm.Base.Map.{lookup}
use judica_vm.Base.Text.{Text}
use judica_vm.Base.Order.{nat_ord}
use judica_vm.Entity.{EntityId}
use judica_vm.Tokens.{TokenPointer, TokenBase}
use judica_vm.TradingPair.{TradingPairId}
use judica_vm.Moves.{TradeError}
use judica_vm.Board.{GameBoard, MarketPair, token_at, balance_of, coins}
use judica_vm.Market.{
  ensure, occupied_or_vacant, on_market, put_market, send, undo_swap, settle_swap, raw_swap_normal,
  raw_swap,
}
use judica_vm.Trade.{
  nickname_of, swap_helper, return_funds, execute, finish_trade, buy_in, buy_normal, do_buy_trade,
  sell_in, sell_normal, do_sell_trade, Direction,
}
use judica_vm.Money.{CoinPredicate, Holds, IsInvariant}

module _ {P : CoinPredicate} (inv : IsInvariant P) where
  pub token_at-Preserves : (id : TokenPointer) → Preserves (Holds P) (token_at id)
  unfolding token_at
  token_at-Preserves id = record { holds = λ g h. case g h (lookup id (coins g)) }
    where
      case :
          (g : GameBoard)
          → Holds P g
          → (o : Option TokenBase)
          → After (Holds P) (elim o [ none ↦ panic | some t ↦ done (t, g) ])
      case g h none = tt
      case g h (some t) = h

  pub balance_of-Preserves :
      (id : TokenPointer) (to : EntityId) → Preserves (Holds P) (balance_of id to)
  unfolding balance_of
  balance_of-Preserves id to = search (preserves_rules, token_at-Preserves)

  put_market-Preserves :
      (key : TradingPairId) (p : MarketPair) → Preserves (Holds P) (modify (put_market key p))
  unfolding put_market
  put_market-Preserves key p = Preserves-modify _ (λ g h. h)

  pub on_market-Preserves :
      (key : TradingPairId) (f : MarketPair → Outcome MarketPair)
      → Preserves (Holds P) (on_market key f)
  unfolding on_market
  on_market-Preserves key f = search (preserves_rules, put_market-Preserves)

  occupied_or_vacant-Preserves :
      (id : TradingPairId) (found : Option MarketPair)
      → Preserves (Holds P) (occupied_or_vacant id found)
  unfolding occupied_or_vacant
  occupied_or_vacant-Preserves id none = inv.creates id
  occupied_or_vacant-Preserves id (some p) = Preserves-pure p

  pub ensure-Preserves : (id : TradingPairId) → Preserves (Holds P) (ensure id)
  unfolding ensure
  ensure-Preserves id = search (preserves_rules, occupied_or_vacant-Preserves)

  send-Preserves :
      (asset : TokenPointer) (s r : EntityId) (amount : ℕ)
      → Preserves (Holds P) (send asset s r amount)
  unfolding send
  send-Preserves asset s r amount = search (preserves_rules, inv.transfers)

  undo_swap-Preserves :
      (m : MarketPair) (s : EntityId) (a b : ℕ) → Preserves (Holds P) (undo_swap m s a b)
  unfolding undo_swap
  undo_swap-Preserves m s a b = search (preserves_rules, inv.transfers)

  settle_swap-Preserves :
      (m : MarketPair) (s : EntityId) (a b : ℕ) → Preserves (Holds P) (settle_swap m s a b)
  unfolding settle_swap
  settle_swap-Preserves m s a b =
      search (preserves_rules, balance_of-Preserves, undo_swap-Preserves, on_market-Preserves) depth
        12

  raw_swap_normal-Preserves :
      (id : TradingPairId) (a b : ℕ) (s : EntityId) → Preserves (Holds P) (raw_swap_normal id a b s)
  unfolding raw_swap_normal
  raw_swap_normal-Preserves id a b s =
      search
        (
          preserves_rules, ensure-Preserves, send-Preserves, undo_swap-Preserves,
          settle_swap-Preserves,
        )
        depth 12

  raw_swap-Preserves :
      (id : TradingPairId) (a b : ℕ) (s : EntityId) → Preserves (Holds P) (raw_swap id a b s)
  unfolding raw_swap
  raw_swap-Preserves id a b s = search (preserves_rules, raw_swap_normal-Preserves)

  nickname_of-Preserves : (id : TokenPointer) → Preserves (Holds P) (nickname_of id)
  unfolding nickname_of
  nickname_of-Preserves id = search (preserves_rules, token_at-Preserves)

  return_funds-Preserves :
      (selling : TokenPointer) (m s : EntityId) (a : ℕ) (r : Result TradeError Unit)
      → Preserves (Holds P) (return_funds selling m s a r)
  unfolding return_funds
  return_funds-Preserves selling m s a (ok u) = Preserves-pure (ok u)
  return_funds-Preserves selling m s a (err e) = search (preserves_rules, inv.transfers)

  swap_helper-Preserves :
      (selling buying : TokenPointer) (a b : ℕ) (s : EntityId)
      → Preserves (Holds P) (swap_helper selling buying a b s)
  unfolding swap_helper
  swap_helper-Preserves selling buying a b s = search (preserves_rules, raw_swap-Preserves)

  execute-Preserves :
      (selling buying : TokenPointer) (m : EntityId) (a b : ℕ) (s : EntityId)
      → Preserves (Holds P) (execute selling buying m a b s)
  unfolding execute
  execute-Preserves selling buying m a b s =
      search (preserves_rules, inv.transfers, swap_helper-Preserves, return_funds-Preserves) depth
        12

  finish_trade-Preserves :
      (id : TradingPairId) (m : MarketPair) (d : Direction) (names : Text × Text) (b a : ℕ)
      (simulate : Bool) (s : EntityId)
      → Preserves (Holds P) (finish_trade id m d names b a simulate s)
  unfolding finish_trade
  finish_trade-Preserves id m d names b a simulate s =
      search (preserves_rules, balance_of-Preserves, execute-Preserves) depth 12

  buy_in-Preserves :
      (id : TradingPairId) (m : MarketPair) (limit : Option ℕ) (simulate : Bool) (s : EntityId)
      (d : Direction)
      → Preserves (Holds P) (buy_in id m limit simulate s d)
  unfolding buy_in
  buy_in-Preserves id m limit simulate s d =
      search (preserves_rules, balance_of-Preserves, nickname_of-Preserves, finish_trade-Preserves)
        depth 14

  sell_in-Preserves :
      (id : TradingPairId) (m : MarketPair) (limit : Option ℕ) (simulate : Bool) (s : EntityId)
      (d : Direction)
      → Preserves (Holds P) (sell_in id m limit simulate s d)
  unfolding sell_in
  sell_in-Preserves id m limit simulate s d =
      search (preserves_rules, balance_of-Preserves, nickname_of-Preserves, finish_trade-Preserves)
        depth 14

  buy_normal-Preserves :
      (id : TradingPairId) (a b : ℕ) (limit : Option ℕ) (simulate : Bool) (s : EntityId)
      → Preserves (Holds P) (buy_normal id a b limit simulate s)
  unfolding buy_normal
  buy_normal-Preserves id a b limit simulate s =
      search (preserves_rules, ensure-Preserves, buy_in-Preserves)

  pub do_buy_trade-Preserves :
      (id : TradingPairId) (a b : ℕ) (limit : Option ℕ) (simulate : Bool) (s : EntityId)
      → Preserves (Holds P) (do_buy_trade id a b limit simulate s)
  unfolding do_buy_trade
  do_buy_trade-Preserves id a b limit simulate s = search (preserves_rules, buy_normal-Preserves)

  sell_normal-Preserves :
      (id : TradingPairId) (a b : ℕ) (limit : Option ℕ) (simulate : Bool) (s : EntityId)
      → Preserves (Holds P) (sell_normal id a b limit simulate s)
  unfolding sell_normal
  sell_normal-Preserves id a b limit simulate s =
      search (preserves_rules, ensure-Preserves, sell_in-Preserves)

  pub do_sell_trade-Preserves :
      (id : TradingPairId) (a b : ℕ) (limit : Option ℕ) (simulate : Bool) (s : EntityId)
      → Preserves (Holds P) (do_sell_trade id a b limit simulate s)
  unfolding do_sell_trade
  do_sell_trade-Preserves id a b limit simulate s = search (preserves_rules, sell_normal-Preserves)
