-- ===== src/Money/Events.antt =====
-- Every event keeps every invariant of the coins that the making of coins keeps too.
use judica_vm.Base.{ℕ, List}
use judica_vm.Base.Exec.{Preserves, Preserves-modify, Preserves-for_each, preserves_rules, modify}
use judica_vm.Entity.{EntityId}
use judica_vm.Tokens.{TokenPointer}
use judica_vm.TradingPair.{TradingPairId}
use judica_vm.Board.{
  MarketPair, Producer, Callback, power_plant_event, asic_producer, steel_smelter, silicon_refinery,
  concrete_miller, coin_lockup, CoinLockup, PowerPlantEvent,
}
use judica_vm.Market.{issue_shares, pay_in, deposit_normal, deposit}
use judica_vm.Schedule.{lockup_action}
use judica_vm.Producers.{
  asic_start, asic_action, steel_start, steel_action, silicon_start, silicon_action, concrete_start,
  concrete_action,
}
use judica_vm.Payout.{mint_reward, pay_out, power_plant_action, Shares}
use judica_vm.Callbacks.{action, keep_callbacks, run_batch, run}
use judica_vm.Money.{CoinPredicate, Holds, IsInvariant, IsMintInvariant}
use judica_vm.Money.Trading.{
  token_at-Preserves, balance_of-Preserves, on_market-Preserves, ensure-Preserves,
  do_sell_trade-Preserves,
}
use judica_vm.Money.Moves.{reading-Preserves, nft_at-Preserves, schedule-Preserves}

module _ {P : CoinPredicate} (inv : IsMintInvariant P) where
  base : IsInvariant P
  base = inv.base

  issue_shares-Preserves :
      (id : TradingPairId) (m : MarketPair) (a b : ℕ) (from : EntityId)
      → Preserves (Holds P) (issue_shares id m a b from)
  unfolding issue_shares
  issue_shares-Preserves id m a b from =
      search
        (
          preserves_rules,
          token_at-Preserves base,
          balance_of-Preserves base,
          inv.mints,
          on_market-Preserves base,
        )
        depth 12

  pay_in-Preserves :
      (id : TradingPairId) (m : MarketPair) (a b : ℕ) (from : EntityId)
      → Preserves (Holds P) (pay_in id m a b from)
  unfolding pay_in
  pay_in-Preserves id m a b from =
      search (preserves_rules, inv.base.transfers, issue_shares-Preserves) depth 12

  deposit_normal-Preserves :
      (id : TradingPairId) (a b : ℕ) (from : EntityId)
      → Preserves (Holds P) (deposit_normal id a b from)
  unfolding deposit_normal
  deposit_normal-Preserves id a b from =
      search (preserves_rules, ensure-Preserves base, balance_of-Preserves base, pay_in-Preserves)
        depth 12

  deposit-Preserves :
      (id : TradingPairId) (a b : ℕ) (from : EntityId) → Preserves (Holds P) (deposit id a b from)
  unfolding deposit
  deposit-Preserves id a b from = search (preserves_rules, deposit_normal-Preserves)

  lockup_action-Preserves : (l : CoinLockup) → Preserves (Holds P) (lockup_action l)
  unfolding lockup_action
  lockup_action-Preserves l =
      search (preserves_rules, nft_at-Preserves base, balance_of-Preserves base, inv.base.transfers)
        depth 12

  mint_reward-Preserves :
      (btc : TokenPointer) (r : EntityId × ℕ) → Preserves (Holds P) (mint_reward btc r)
  unfolding mint_reward
  mint_reward-Preserves btc (to, amount) = inv.mints btc to amount

  pay_out-Preserves : (total : ℕ) (shares : Shares) → Preserves (Holds P) (pay_out total shares)
  unfolding pay_out
  pay_out-Preserves total shares =
      search (preserves_rules, reading-Preserves base, mint_reward-Preserves) depth 12

  power_plant_action-Preserves : (e : PowerPlantEvent) → Preserves (Holds P) (power_plant_action e)
  unfolding power_plant_action
  power_plant_action-Preserves e =
      search (preserves_rules, reading-Preserves base, pay_out-Preserves, schedule-Preserves base)
        depth 12

  asic_start-Preserves : (p : Producer) → Preserves (Holds P) (asic_start p)
  unfolding asic_start
  asic_start-Preserves p = search (preserves_rules, inv.mints, deposit-Preserves) depth 14

  asic_action-Preserves : (p : Producer) → Preserves (Holds P) (asic_action p)
  unfolding asic_action
  asic_action-Preserves p =
      search
        (
          preserves_rules,
          asic_start-Preserves,
          balance_of-Preserves base,
          do_sell_trade-Preserves base,
          schedule-Preserves base,
        )
        depth 14

  steel_start-Preserves : (p : Producer) → Preserves (Holds P) (steel_start p)
  unfolding steel_start
  steel_start-Preserves p = search (preserves_rules, inv.mints, deposit-Preserves) depth 14

  steel_action-Preserves : (p : Producer) → Preserves (Holds P) (steel_action p)
  unfolding steel_action
  steel_action-Preserves p =
      search
        (
          preserves_rules,
          steel_start-Preserves,
          balance_of-Preserves base,
          do_sell_trade-Preserves base,
          schedule-Preserves base,
        )
        depth 14

  silicon_start-Preserves : (p : Producer) → Preserves (Holds P) (silicon_start p)
  unfolding silicon_start
  silicon_start-Preserves p = search (preserves_rules, inv.mints, deposit-Preserves) depth 14

  silicon_action-Preserves : (p : Producer) → Preserves (Holds P) (silicon_action p)
  unfolding silicon_action
  silicon_action-Preserves p =
      search
        (
          preserves_rules,
          silicon_start-Preserves,
          balance_of-Preserves base,
          do_sell_trade-Preserves base,
          schedule-Preserves base,
        )
        depth 14

  concrete_start-Preserves : (p : Producer) → Preserves (Holds P) (concrete_start p)
  unfolding concrete_start
  concrete_start-Preserves p = search (preserves_rules, inv.mints, deposit-Preserves) depth 14

  concrete_action-Preserves : (p : Producer) → Preserves (Holds P) (concrete_action p)
  unfolding concrete_action
  concrete_action-Preserves p =
      search
        (
          preserves_rules,
          concrete_start-Preserves,
          balance_of-Preserves base,
          do_sell_trade-Preserves base,
          schedule-Preserves base,
        )
        depth 14

  action-Preserves : (cb : Callback) → Preserves (Holds P) (action cb)
  unfolding action
  action-Preserves (power_plant_event e) = power_plant_action-Preserves e
  action-Preserves (asic_producer p) = asic_action-Preserves p
  action-Preserves (steel_smelter p) = steel_action-Preserves p
  action-Preserves (silicon_refinery p) = silicon_action-Preserves p
  action-Preserves (concrete_miller p) = concrete_action-Preserves p
  action-Preserves (coin_lockup l) = lockup_action-Preserves l

  run_batch-Preserves : (b : ℕ × List Callback) → Preserves (Holds P) (run_batch b)
  unfolding run_batch
  run_batch-Preserves (_, v) = Preserves-for_each v action action-Preserves

  keep_callbacks-Preserves : (key : ℕ) → Preserves (Holds P) (modify (keep_callbacks key))
  unfolding keep_callbacks
  keep_callbacks-Preserves key = Preserves-modify (keep_callbacks key) (λ g h. h)

  pub run-Preserves : Preserves (Holds P) run
  unfolding run
  run-Preserves = search (preserves_rules, keep_callbacks-Preserves, run_batch-Preserves) depth 12
