-- ===== src/Trade/Slippage.antt =====
-- tokens/token_swap.rs: the limits that a player sets on a trade, and what it moves.
use judica_vm.Base.{ℕ, ◌+◌, ◌≤◌, ◌≡◌, subst, arith, Bool, false, Option, none, some, done, ltb}
use judica_vm.Base.Exec.{
  Result, ok, err, Returns, Returns-pure, Returns-if, Returns-bind, Returns-lift, Returns-and_then,
  Given, returns_rules,
}
use judica_vm.Base.Text.{Text}
use judica_vm.Entity.{EntityId}
use judica_vm.Moves.{TradeError, TradeOutcome}
use judica_vm.Board.{GameBoard, Game, MarketPair, balance_of}
use judica_vm.TradingPair.{TradingPairId, is_normal, normalize}
use judica_vm.Market.{ensure}
use judica_vm.Quote.{buy_quote, sell_quote}
use judica_vm.Trade.Limits.{IsOwnPair, IsExecuted, named, other}
use judica_vm.Trade.Flipped.{do_buy_trade-IsExecuted, do_sell_trade-IsExecuted}
use judica_vm.Quote.Buy.{buy_quote_fair}
use judica_vm.Quote.Sell.{sell_quote_fair}
use judica_vm.Trade.{
  Direction, nickname_of, finish_trade, check_max, buy_in, buy_direction, buy_normal, do_buy_trade,
  check_min, check_liquidity, sell_in, sell_direction, sell_normal, do_sell_trade,
}

-- A limit from above, and one from below; without a limit all is within it.
abbrev pub AtMost : Option ℕ → ℕ → Type 0
AtMost none n = Unit
AtMost (some max) n = n ≤ max

abbrev pub AtLeast : Option ℕ → ℕ → Type 0
AtLeast none n = Unit
AtLeast (some min) n = min ≤ n

-- A bought trade: no less than was asked, for no more than the limit.
abbrev pub Bought : ℕ → Option ℕ → Result TradeError TradeOutcome → Type 0
Bought amount limit (ok o) =
    (amount ≤ o.amount_player_purchased) × AtMost limit o.amount_player_sold
Bought amount limit (err e) = Unit

-- A sold trade: no more than was offered, for no less than the limit.
abbrev pub Sold : ℕ → Option ℕ → Result TradeError TradeOutcome → Type 0
Sold amount limit (ok o) = (o.amount_player_sold ≤ amount) × AtLeast limit o.amount_player_purchased
Sold amount limit (err e) = Unit

-- The amounts that a trade reports are those that it was given.
finish_trade-Returns :
    {Q : Result TradeError TradeOutcome → Type 0} (id : TradingPairId) (m : MarketPair)
    (d : Direction) (names : Text × Text) (b a : ℕ) (simulate : Bool) (s : EntityId)
    → ((e : TradeError) → Q (err e))
    → Q (
        ok (record {
          trading_pair = id;
          asset_player_purchased = names.0;
          amount_player_purchased = b;
          asset_player_sold = names.1;
          amount_player_sold = a;
        }))
    → Returns Q (finish_trade id m d names b a simulate s)
unfolding finish_trade
finish_trade-Returns id m (buying, selling, n) names b a simulate s qe qo =
    search (returns_rules, qe, qo) depth 14

check_max_lem :
    (limit : Option ℕ) (n : ℕ) {u : Unit {0}} → check_max limit n ≡ ok u → AtMost limit n
unfolding check_max
check_max_lem none n h = tt
check_max_lem (some max) n h = ground arith

check_min_lem :
    (limit : Option ℕ) (n : ℕ) {u : Unit {0}} → check_min limit n ≡ ok u → AtLeast limit n
unfolding check_min
check_min_lem none n h = tt
check_min_lem (some min) n h = ground arith

buy_in-Returns :
    (id : TradingPairId) (m : MarketPair) (limit : Option ℕ) (simulate : Bool) (s : EntityId)
    (buying selling amount : ℕ)
    → Returns (Bought amount limit) (buy_in id m limit simulate s (buying, selling, amount))
unfolding buy_in
buy_in-Returns id m limit simulate s buying selling amount =
    Returns-bind (nickname_of selling) _ λ sold_name.
      Returns-bind (nickname_of buying) _ λ bought_name.
        Returns-bind (balance_of selling m.id) _ λ p. Returns-bind (balance_of buying m.id) _ λ q.
          Returns-if (ltb q amount) _ _ (Returns-pure _ tt) (
            Returns-lift (buy_quote p q amount) _ λ quoted e.
              let (sell_amt, bought) = quoted in
              Returns-and_then (check_max limit sell_amt) _ (λ e. tt)
                λ u within.
                  finish_trade-Returns id m (buying, selling, amount) (bought_name, sold_name)
                    bought sell_amt simulate s (λ e. tt)
                    ((buy_quote_fair p q amount e).0, check_max_lem limit sell_amt within))

sell_in-Returns :
    (id : TradingPairId) (m : MarketPair) (limit : Option ℕ) (simulate : Bool) (s : EntityId)
    (buying selling amount : ℕ)
    → Returns (Sold amount limit) (sell_in id m limit simulate s (buying, selling, amount))
unfolding sell_in
sell_in-Returns id m limit simulate s buying selling amount =
    Returns-bind (nickname_of buying) _ λ bought_name.
      Returns-bind (nickname_of selling) _ λ sold_name.
        Returns-bind (balance_of selling m.id) _ λ p. Returns-bind (balance_of buying m.id) _ λ q.
          Returns-and_then (check_liquidity limit q) _ (λ e. tt)
            λ u liquid. Returns-lift (sell_quote q p amount) _ λ (bought, charged) e.
              Returns-and_then (check_min limit bought) _ (λ e. tt)
                λ u within.
                  finish_trade-Returns id m (buying, selling, amount) (bought_name, sold_name)
                    bought charged simulate s (λ e. tt)
                    ((sell_quote_fair q p amount e).0, check_min_lem limit bought within)

direction_amount :
    (id : TradingPairId) (a b : ℕ) (d : Direction)
    → (buy_direction id a b ≡ ok d → d.2 ≡ a + b) × (sell_direction id a b ≡ ok d → d.2 ≡ a + b)
unfolding buy_direction sell_direction
direction_amount id a b d = (λ h. ground arith, λ h. ground arith)

buy_normal-Returns :
    (id : TradingPairId) (a b : ℕ) (limit : Option ℕ) (simulate : Bool) (s : EntityId)
    → Returns (Bought (a + b) limit) (buy_normal id a b limit simulate s)
unfolding buy_normal
buy_normal-Returns id a b limit simulate s = Returns-bind (ensure id) _ λ m.
    Returns-and_then (buy_direction id a b) _ (λ e. tt)
      λ (buying, selling, amount) e.
        subst
          (λ n. Returns (Bought n limit) (buy_in id m limit simulate s (buying, selling, amount)))
          ((direction_amount id a b (buying, selling, amount)).0 e)
          (buy_in-Returns id m limit simulate s buying selling amount)

sell_normal-Returns :
    (id : TradingPairId) (a b : ℕ) (limit : Option ℕ) (simulate : Bool) (s : EntityId)
    → Returns (Sold (a + b) limit) (sell_normal id a b limit simulate s)
unfolding sell_normal
sell_normal-Returns id a b limit simulate s = Returns-bind (ensure id) _ λ m.
    Returns-and_then (sell_direction id a b) _ (λ e. tt)
      λ (buying, selling, amount) e.
        subst
          (λ n. Returns (Sold n limit) (sell_in id m limit simulate s (buying, selling, amount)))
          ((direction_amount id a b (buying, selling, amount)).1 e)
          (sell_in-Returns id m limit simulate s buying selling amount)

swapped : (a b : ℕ) → b + a ≡ a + b
swapped a b = omega arith

result :
    {Q : Result TradeError TradeOutcome → Type 0} (m : Game (Result TradeError TradeOutcome))
    (g g' : GameBoard) (r : Result TradeError TradeOutcome)
    → Returns Q m
    → m g ≡ done (r, g')
    → Q r
result {Q} m g g' r known ran = subst (Given Q) ran (known.from g)

do_buy_trade-Returns :
    (id : TradingPairId) (a b : ℕ) (limit : Option ℕ) (simulate : Bool) (s : EntityId)
    → Returns (Bought (a + b) limit) (do_buy_trade id a b limit simulate s)
unfolding do_buy_trade
do_buy_trade-Returns id a b limit simulate s =
    Returns-if (is_normal id) _ _ (buy_normal-Returns id a b limit simulate s) (
      subst (λ n. Returns (Bought n limit) (buy_normal (normalize id) b a limit simulate s))
        (swapped a b) (buy_normal-Returns (normalize id) b a limit simulate s))

do_sell_trade-Returns :
    (id : TradingPairId) (a b : ℕ) (limit : Option ℕ) (simulate : Bool) (s : EntityId)
    → Returns (Sold (a + b) limit) (do_sell_trade id a b limit simulate s)
unfolding do_sell_trade
do_sell_trade-Returns id a b limit simulate s =
    Returns-if (is_normal id) _ _ (sell_normal-Returns id a b limit simulate s) (
      subst (λ n. Returns (Sold n limit) (sell_normal (normalize id) b a limit simulate s))
        (swapped a b) (sell_normal-Returns (normalize id) b a limit simulate s))

buy_reports :
    (id : TradingPairId) (a b : ℕ) (limit : Option ℕ) (s : EntityId) (g g' : GameBoard)
    (o : TradeOutcome)
    → do_buy_trade id a b limit false s g ≡ done (ok o, g')
    → (a + b ≤ o.amount_player_purchased) × AtMost limit o.amount_player_sold
buy_reports id a b limit s g g' o ran =
    result (do_buy_trade id a b limit false s) g g' (ok o)
      (do_buy_trade-Returns id a b limit false s) ran

sell_reports :
    (id : TradingPairId) (a b : ℕ) (limit : Option ℕ) (s : EntityId) (g g' : GameBoard)
    (o : TradeOutcome)
    → do_sell_trade id a b limit false s g ≡ done (ok o, g')
    → (o.amount_player_sold ≤ a + b) × AtLeast limit o.amount_player_purchased
sell_reports id a b limit s g g' o ran =
    result (do_sell_trade id a b limit false s) g g' (ok o)
      (do_sell_trade-Returns id a b limit false s) ran

-- A buy that is executed and accepted, where the pair's market stands under its own pair, moves the
-- coins that its outcome reports and no others: from the board that opening the market leaves, the
-- player is paid by the market what was bought of the asset whose amount is not 0, at least the
-- amount asked for, and pays it what was sold of the other asset, at most the limit if there is one.
pub do_buy_trade_limits :
    (id : TradingPairId) (a b : ℕ) (limit : Option ℕ) (s : EntityId) (g g' : GameBoard)
    (o : TradeOutcome)
    → IsOwnPair id g
    → do_buy_trade id a b limit false s g ≡ done (ok o, g')
    → (a + b ≤ o.amount_player_purchased)
      × AtMost limit o.amount_player_sold
      × IsExecuted (normalize id) s (other id a) (named id a) g o g'
do_buy_trade_limits id a b limit s g g' o own ran =
    let (enough, within) = buy_reports id a b limit s g g' o ran in
    (enough, within, do_buy_trade-IsExecuted id a b limit s g own ran)

-- A sale that is executed and accepted, where the pair's market stands under its own pair, moves the
-- coins that its outcome reports and no others: from the board that opening the market leaves, the
-- player pays the market what was sold of the asset whose amount is not 0, at most the amount
-- offered, and is paid by it what was bought of the other asset, at least the limit if there is one.
pub do_sell_trade_limits :
    (id : TradingPairId) (a b : ℕ) (limit : Option ℕ) (s : EntityId) (g g' : GameBoard)
    (o : TradeOutcome)
    → IsOwnPair id g
    → do_sell_trade id a b limit false s g ≡ done (ok o, g')
    → (o.amount_player_sold ≤ a + b)
      × AtLeast limit o.amount_player_purchased
      × IsExecuted (normalize id) s (named id a) (other id a) g o g'
do_sell_trade_limits id a b limit s g g' o own ran =
    let (no_more, within) = sell_reports id a b limit s g g' o ran in
    (no_more, within, do_sell_trade-IsExecuted id a b limit s g own ran)
