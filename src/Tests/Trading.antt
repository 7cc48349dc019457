-- ===== src/Tests/Trading.antt =====
-- A trade, a sale of an NFT and a round of mining, with the theorems about them.
use judica_vm.Base.{
  ℕ, ◌+◌, ◌≤◌, ◌≡◌, ◌⊎◌, refl, sym, ap, arith, Bool, true, false, Option, none, some, List, [], ◌∷◌,
  Outcome, done, panic, sum,
}
use judica_vm.Base.Exec.{Result, ok}
use judica_vm.Base.Map.{lookup, insert, values}
use judica_vm.Base.Order.{nat_ord}
use judica_vm.Base.Text.{Text, ascii}
use judica_vm.Tokens.{TokenBase, balance_check}
use judica_vm.TradingPair.{TradingPairId, normalize}
use judica_vm.Moves.{TradeError, TradeOutcome}
use judica_vm.Nfts.{NftPtr, NftSale, BaseNft, max_count}
use judica_vm.Board.{GameBoard, MarketPair, coins}
use judica_vm.Trade.{do_buy_trade, do_sell_trade}
use judica_vm.Trade.Limits.{IsOwnPair, IsExecuted}
use judica_vm.Trade.Slippage.{AtMost, AtLeast, do_buy_trade_limits, do_sell_trade_limits}
use judica_vm.Sales.{purchase}
use judica_vm.Sales.Purchase.{Stands, IsSold, purchase_lem, purchase_locked}
use judica_vm.Payout.{Shares, count_shares, rewards}
use judica_vm.Payout.Subsidy.{round_le_subsidy}
use judica_vm.Tests.Play.{first, board_of, next_of, alice_id, bob_id, bitcoin}

abbrev pub asic_pair : TradingPairId
asic_pair = record { asset_a = 1; asset_b = 4 }

abbrev pub token_of : ℕ → Text → ℕ → ℕ → TokenBase
token_of id name mine market = record {
  balances = (8, mine) ∷ (50, market) ∷ [];
  total = mine + market;
  this = id;
  nickname = some name;
}

-- A market of 1 for 4 with 100000 and 5000 in it, and a player, 8, who has 9000 and 40.
abbrev pub trading : GameBoard
trading = record (board_of panic) {
  tokens = record {
    tokens =
        (1, token_of 1 (ascii "sats") 9000 100_000) ∷ (4, token_of 4 (ascii "asics") 40 5000) ∷ [];
    hashboards = [];
    steel = [];
    silicon = [];
  };
  markets =
      (
        asic_pair,
        record { pair = asic_pair; id = 50; lp = 51; reserve_a = 100_000; reserve_b = 5000 },
      )
      ∷ [];
}

abbrev pub outcome_of : Outcome (Result TradeError TradeOutcome × GameBoard) → TradeOutcome
outcome_of (done (ok o, g)) = o
outcome_of _ = record {
  trading_pair = asic_pair;
  asset_player_purchased = [];
  amount_player_purchased = 0;
  asset_player_sold = [];
  amount_player_sold = 0;
}

trading-IsOwnPair : IsOwnPair asic_pair trading
unfolding lookup judica_vm.TradingPair.pair_cmp judica_vm.TradingPair.normalize
    judica_vm.TradingPair.is_normal
trading-IsOwnPair m found = sym (ap pair_found found)
  where
    pair_found : Option MarketPair → TradingPairId
    pair_found none = asic_pair
    pair_found (some p) = p.pair

unfoldable bought : Outcome (Result TradeError TradeOutcome × GameBoard)
unfolding do_buy_trade
bought = do_buy_trade asic_pair 0 3 (some 100) false 8 trading

bought_is_ok :
    do_buy_trade asic_pair 0 3 (some 100) false 8 trading
    ≡ done (ok (outcome_of bought), next_of bought)
unfolding bought lookup judica_vm.TradingPair.pair_cmp judica_vm.Quote.roundup_div
    judica_vm.Tokens.burn judica_vm.Tokens.mint insert
bought_is_ok = refl

do_buy_trade_limits_example :
    (0 + 3 ≤ (outcome_of bought).amount_player_purchased)
    × AtMost (some 100) (outcome_of bought).amount_player_sold
    × IsExecuted (normalize asic_pair) 8 1 4 trading (outcome_of bought) (next_of bought)
do_buy_trade_limits_example =
    do_buy_trade_limits asic_pair 0 3 (some 100) 8 trading (next_of bought) (outcome_of bought)
      trading-IsOwnPair bought_is_ok

unfoldable sold : Outcome (Result TradeError TradeOutcome × GameBoard)
unfolding do_sell_trade
sold = do_sell_trade asic_pair 500 0 (some 2) false 8 trading

sold_is_ok :
    do_sell_trade asic_pair 500 0 (some 2) false 8 trading
    ≡ done (ok (outcome_of sold), next_of sold)
unfolding sold lookup judica_vm.TradingPair.pair_cmp judica_vm.Quote.roundup_div
    judica_vm.Tokens.burn judica_vm.Tokens.mint insert
sold_is_ok = refl

do_sell_trade_limits_example :
    ((outcome_of sold).amount_player_sold ≤ 500 + 0)
    × AtLeast (some 2) (outcome_of sold).amount_player_purchased
    × IsExecuted (normalize asic_pair) 8 1 4 trading (outcome_of sold) (next_of sold)
do_sell_trade_limits_example =
    do_sell_trade_limits asic_pair 500 0 (some 2) 8 trading (next_of sold) (outcome_of sold)
      trading-IsOwnPair sold_is_ok

abbrev plant_id : NftPtr
plant_id = 3_235_774_486

abbrev plant_nft : BaseNft
plant_nft = record { owner = alice_id; nft_id = plant_id; transfer_count = 0 }

abbrev sale : NftSale
sale = record { price = 250; currency = bitcoin; seller = alice_id; transfer_count = 0 }

-- Alice offers her plant.
unfoldable offered : GameBoard
unfolding first
offered = record first { nft_sales = record { sales = (plant_id, sale) ∷ [] } }

offered_sale : lookup plant_id offered.nft_sales.sales ≡ some sale
unfolding offered lookup
offered_sale = refl

offered_nft : lookup plant_id offered.nfts.nfts ≡ some plant_nft
unfolding offered lookup judica_vm.Base.Order.text_cmp insert judica_vm.TradingPair.pair_cmp
    judica_vm.Base.mul
offered_nft = refl

unfoldable handed : GameBoard
unfolding purchase offered
handed = next_of (purchase bob_id plant_id 300 bitcoin offered)

handed_is_next : purchase bob_id plant_id 300 bitcoin offered ≡ done (tt, handed)
unfolding handed lookup judica_vm.Base.Order.text_cmp insert judica_vm.TradingPair.pair_cmp
    judica_vm.Base.mul judica_vm.Tokens.burn
handed_is_next = refl

abbrev satoshis : TokenBase
unfolding offered lookup
satoshis = elim (lookup bitcoin (coins offered)) [ none ↦ token_of 0 [] 0 0 | some t ↦ t ]

satoshis_found : lookup sale.currency (coins offered) ≡ some satoshis
unfolding offered lookup judica_vm.Base.Order.text_cmp insert judica_vm.TradingPair.pair_cmp
    judica_vm.Base.mul
satoshis_found = refl

purchase_lem_example :
    (Stands sale plant_nft 300 bitcoin × (sale.price ≤ balance_check bob_id satoshis)
      → IsSold bob_id plant_id sale plant_nft satoshis offered handed)
    × (¬ (Stands sale plant_nft 300 bitcoin × (sale.price ≤ balance_check bob_id satoshis))
        → handed ≡ offered)
purchase_lem_example =
    purchase_lem bob_id plant_id 300 bitcoin offered handed sale plant_nft satoshis offered_sale
      offered_nft satoshis_found handed_is_next

-- The same offer of an NFT that is locked.
abbrev locked_nft : BaseNft
locked_nft = record plant_nft { transfer_count = max_count }

abbrev locked_sale : NftSale
locked_sale = record sale { transfer_count = max_count }

unfoldable locked : GameBoard
unfolding first lookup
locked = record first {
  nft_sales = record { sales = (plant_id, locked_sale) ∷ [] };
  nfts = record { nfts = (plant_id, locked_nft) ∷ []; power_plants = [] };
}

locked_is_listed : lookup plant_id locked.nft_sales.sales ≡ some locked_sale
unfolding locked lookup
locked_is_listed = refl

locked_is_there : lookup plant_id locked.nfts.nfts ≡ some locked_nft
unfolding locked lookup
locked_is_there = refl

unfoldable still_locked : GameBoard
unfolding purchase locked
still_locked = next_of (purchase bob_id plant_id 300 bitcoin locked)

still_locked_is_next : purchase bob_id plant_id 300 bitcoin locked ≡ done (tt, still_locked)
unfolding still_locked lookup judica_vm.Base.Order.text_cmp insert judica_vm.TradingPair.pair_cmp
    judica_vm.Base.mul judica_vm.Tokens.burn
still_locked_is_next = refl

purchase_locked_example : lookup plant_id still_locked.nfts.nfts ≡ some locked_nft
purchase_locked_example =
    purchase_locked bob_id plant_id 300 bitcoin locked still_locked locked_sale locked_nft
      locked_is_listed locked_is_there refl still_locked_is_next

abbrev counted_of : Outcome (ℕ × Shares) → ℕ × Shares
counted_of (done r) = r
counted_of panic = (0, [])

abbrev amounts_of : Outcome Shares → Shares
amounts_of (done r) = r
amounts_of panic = []

unfoldable counted : ℕ × Shares
unfolding count_shares first
counted = counted_of (count_shares first.nfts.power_plants first 0 [])

counted_is_done : count_shares first.nfts.power_plants first 0 [] ≡ done (counted.0, counted.1)
unfolding counted judica_vm.Base.Order.text_cmp lookup insert judica_vm.TradingPair.pair_cmp
counted_is_done = refl

counted_total : counted.0 ≡ 600_000_000_000
unfolding counted judica_vm.Base.Order.text_cmp lookup insert judica_vm.TradingPair.pair_cmp
counted_total = refl

some_hashrate : 1 ≤ counted.0
some_hashrate = rw counted_total (omega arith)

unfoldable amounts : Shares
unfolding rewards counted
amounts = amounts_of (rewards first.mining_subsidy counted.0 counted.1)

amounts_is_done : rewards first.mining_subsidy counted.0 counted.1 ≡ done amounts
unfolding amounts judica_vm.Base.Order.text_cmp lookup insert judica_vm.TradingPair.pair_cmp
amounts_is_done = refl

round_le_subsidy_example : sum (values amounts) ≤ first.mining_subsidy
round_le_subsidy_example =
    round_le_subsidy first counted.0 counted.1 amounts counted_is_done some_hashrate amounts_is_done
