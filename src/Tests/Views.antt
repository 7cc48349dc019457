-- ===== src/Tests/Views.antt =====
-- Simulated trades and the shares of the hashrate on small boards.
use judica_vm.Base.{
  ℕ, ◌+◌, ◌≤◌, ◌≡◌, refl, Bool, true, false, Option, none, some, List, [], ◌∷◌, Outcome, done,
  panic, if◌then◌else◌, inl,
}
use judica_vm.Base.Exec.{Result, ok}
use judica_vm.Base.Map.{lookup, insert}
use judica_vm.Moves.{TradeError, TradeOutcome}
use judica_vm.Board.{GameBoard}
use judica_vm.Trade.{do_buy_trade, do_sell_trade}
use judica_vm.Views.{simulate_buy_trade, simulate_sell_trade}
use judica_vm.Finish.{
  get_user_hashrate_share, accumulate, add_rate, normalize_shares, denominator, ShareMap,
}
use judica_vm.Views.Agrees.{simulate-do_trade}
use judica_vm.Finish.Shares.{numerators, AllOver, get_user_hashrate_share_bounds}
use judica_vm.Tests.Play.{first, next_of}
use judica_vm.Tests.Trading.{asic_pair, trading, outcome_of}

unfoldable tried : Outcome (Result TradeError TradeOutcome × GameBoard)
unfolding simulate_buy_trade do_buy_trade
tried = simulate_buy_trade asic_pair 0 3 8 trading

tried_is_ok :
    simulate_buy_trade asic_pair 0 3 8 trading ≡ done (ok (outcome_of tried), next_of tried)
unfolding tried lookup judica_vm.TradingPair.pair_cmp judica_vm.Quote.roundup_div
tried_is_ok = refl

unfoldable done_sale : Outcome (Result TradeError TradeOutcome × GameBoard)
unfolding do_sell_trade
done_sale = do_sell_trade asic_pair 500 0 none false 8 trading

done_sale_is_ok :
    do_sell_trade asic_pair 500 0 none false 8 trading
    ≡ done (ok (outcome_of done_sale), next_of done_sale)
unfolding done_sale lookup judica_vm.TradingPair.pair_cmp judica_vm.Quote.roundup_div
    judica_vm.Tokens.burn judica_vm.Tokens.mint insert
done_sale_is_ok = refl

simulate-do_trade_example :
    (g : GameBoard) × ((if false
          then simulate_buy_trade asic_pair 500 0 8
          else simulate_sell_trade asic_pair 500 0 8)
        trading
      ≡ done (ok (outcome_of done_sale), g))
simulate-do_trade_example =
    simulate-do_trade false asic_pair 500 0 8 trading (next_of done_sale) (outcome_of done_sale)
      done_sale_is_ok

abbrev shares_of : Outcome ShareMap → ShareMap
shares_of (done s) = s
shares_of panic = []

unfoldable shared : ShareMap
unfolding get_user_hashrate_share first
shared = shares_of (get_user_hashrate_share first)

shared_is_done : get_user_hashrate_share first ≡ done shared
unfolding shared accumulate add_rate normalize_shares judica_vm.Plants.compute_hashrate lookup
    insert judica_vm.Base.Order.text_cmp judica_vm.TradingPair.pair_cmp judica_vm.Base.mul
    judica_vm.Base.add
shared_is_done = refl

get_user_hashrate_share_bounds_example :
    (numerators shared ≤ denominator) × AllOver denominator shared
get_user_hashrate_share_bounds_example = get_user_hashrate_share_bounds first shared shared_is_done

shared_all : numerators shared ≡ 100_000
unfolding shared accumulate add_rate normalize_shares judica_vm.Plants.compute_hashrate lookup
    insert judica_vm.Base.Order.text_cmp judica_vm.TradingPair.pair_cmp judica_vm.Base.mul
    judica_vm.Base.add numerators
shared_all = refl
