-- ===== src/Trade.antt =====
-- The trades of common/mine-with-friends-board/src/tokens/token_swap.rs.
pub mod Moved
pub mod Swapped
pub mod Executed
pub mod Opened
pub mod Limits
pub mod Flipped
pub mod Slippage
use judica_vm.Base.{
  ℕ, Bool, true, false, not, Option, none, some, Outcome, done, unwrap, ltb, ◌==◌, if◌then◌else◌,
}
use judica_vm.Base.Exec.{Result, ok, err, pure, lift, ◌>>=◌, ◌>>◌, and_then, require}
use judica_vm.Base.Text.{Text, ascii}
use judica_vm.Entity.{EntityId}
use judica_vm.Tokens.{TokenPointer}
use judica_vm.TradingPair.{TradingPairId, is_normal, normalize}
use judica_vm.Moves.{TradeError, TradeOutcome, invalid_trade, insufficient_tokens, market_slipped}
use judica_vm.Board.{Game, MarketPair, token_at, balance_of}
use judica_vm.Market.{transfer_on, ensure, raw_swap}
use judica_vm.Quote.{sell_quote, buy_quote}

-- `(buying, selling, amount)`
abbrev pub Direction : Type 0
Direction = TokenPointer × TokenPointer × ℕ

unfoldable pub both_zero : TradeError
both_zero = invalid_trade (ascii "Both token amounts cannot be zero")

unfoldable pub one_must_be_zero : TradeError
one_must_be_zero = invalid_trade (ascii "One token amount must be zero")

unfoldable pub buy_direction : TradingPairId → ℕ → ℕ → Result TradeError Direction
unfolding both_zero one_must_be_zero
buy_direction id a b =
    if a == 0
    then if b == 0 then err both_zero else ok (id.asset_b, id.asset_a, b)
    else if b == 0
    then ok (id.asset_a, id.asset_b, a)
    else err one_must_be_zero

unfoldable pub sell_direction : TradingPairId → ℕ → ℕ → Result TradeError Direction
unfolding both_zero one_must_be_zero
sell_direction id a b =
    if a == 0
    then if b == 0 then err both_zero else ok (id.asset_a, id.asset_b, b)
    else if b == 0
    then ok (id.asset_b, id.asset_a, a)
    else err one_must_be_zero

-- `tokens[id].nickname().unwrap()`
unfoldable pub nickname_of : TokenPointer → Game Text
unfolding ◌>>=◌ token_at
nickname_of id = do t ← token_at id; lift (unwrap t.nickname)

-- `swap_helper`: the amounts in the order of the normal pair.
unfoldable pub swap_helper :
    TokenPointer → TokenPointer → ℕ → ℕ → EntityId → Game (Result TradeError Unit)
unfolding raw_swap is_normal normalize
swap_helper selling buying sell_amt buy_amt sender =
    let trade_pair : TradingPairId = record { asset_a = selling; asset_b = buying } in
    if is_normal trade_pair
    then raw_swap trade_pair sell_amt buy_amt sender
    else raw_swap (normalize trade_pair) buy_amt sell_amt sender

unfoldable pub return_funds :
    TokenPointer → EntityId → EntityId → ℕ → Result TradeError Unit → Game (Result TradeError Unit)
unfolding ◌>>=◌ transfer_on
return_funds selling mkt_id sender sell_amt (ok u) = pure (ok u)
return_funds selling mkt_id sender sell_amt (err e) = do
  transfer_on selling mkt_id sender sell_amt
  pure (err e)

-- The part of both trades that moves coins.
unfoldable pub execute :
    TokenPointer → TokenPointer → EntityId → ℕ → ℕ → EntityId → Game (Result TradeError Unit)
unfolding ◌>>=◌ transfer_on require swap_helper return_funds
execute selling buying mkt_id sell_amt buy_amt sender = do
  paid ← transfer_on selling sender mkt_id sell_amt
  require paid
  r ← swap_helper selling buying 0 buy_amt sender
  return_funds selling mkt_id sender sell_amt r

-- What both trades do once the amounts are known; `names` are those of the assets bought and sold.
unfoldable pub finish_trade :
    TradingPairId
    → MarketPair
    → Direction
    → Text × Text
    → ℕ
    → ℕ
    → Bool
    → EntityId
    → Game (Result TradeError TradeOutcome)
unfolding ◌>>=◌ balance_of and_then execute
finish_trade id mkt (buying, selling, _) names buy_amt sell_amt simulate sender = do
  funds ← balance_of selling sender
  if ltb funds sell_amt
      then pure (err (insufficient_tokens (ascii "User has insufficient tokens")))
      else do
        r ← if simulate then pure (ok tt) else execute selling buying mkt.id sell_amt buy_amt sender
        and_then r λ _. pure (
            ok (record {
              trading_pair = id;
              asset_player_purchased = names.0;
              amount_player_purchased = buy_amt;
              asset_player_sold = names.1;
              amount_player_sold = sell_amt;
            }))

-- `sell_max`: the most that the player pays.
unfoldable pub check_max : Option ℕ → ℕ → Result TradeError Unit
check_max none sell_amt = ok tt
check_max (some max) sell_amt = if ltb max sell_amt then err market_slipped else ok tt

unfoldable pub buy_in :
    TradingPairId
    → MarketPair
    → Option ℕ
    → Bool
    → EntityId
    → Direction
    → Game (Result TradeError TradeOutcome)
unfolding ◌>>=◌ balance_of nickname_of and_then check_max finish_trade buy_quote
buy_in id mkt sell_max simulate sender (buying, selling, buy_amt) = do
  sold_name ← nickname_of selling
  bought_name ← nickname_of buying
  mkt_qty_selling ← balance_of selling mkt.id
  mkt_qty_buying ← balance_of buying mkt.id
  if ltb mkt_qty_buying buy_amt
      then pure (err (insufficient_tokens (ascii "Market has insufficient tokens")))
      else do
        (sell_amt, bought) ← lift (buy_quote mkt_qty_selling mkt_qty_buying buy_amt)
        and_then (check_max sell_max sell_amt) λ _.
            finish_trade id mkt (buying, selling, buy_amt) (bought_name, sold_name) bought sell_amt
              simulate sender

unfoldable pub buy_normal :
    TradingPairId → ℕ → ℕ → Option ℕ → Bool → EntityId → Game (Result TradeError TradeOutcome)
unfolding ◌>>=◌ ensure and_then buy_direction buy_in
buy_normal id amount_a amount_b sell_max simulate sender = do
  mkt ← ensure id
  and_then (buy_direction id amount_a amount_b) (buy_in id mkt sell_max simulate sender)

-- `do_buy_trade`, which is `internal_do_trade_buy_fixed_amount`
unfoldable pub do_buy_trade :
    TradingPairId → ℕ → ℕ → Option ℕ → Bool → EntityId → Game (Result TradeError TradeOutcome)
unfolding buy_normal is_normal normalize
do_buy_trade id amount_a amount_b sell_max simulate sender =
    if is_normal id
    then buy_normal id amount_a amount_b sell_max simulate sender
    else buy_normal (normalize id) amount_b amount_a sell_max simulate sender

-- `buy_min`: the least that the player receives, against the reserve and then the amount.
unfoldable pub check_liquidity : Option ℕ → ℕ → Result TradeError Unit
check_liquidity none qty = ok tt
check_liquidity (some min) qty =
    if ltb qty min
    then err (insufficient_tokens (ascii "Not Enough Liquidity to Buy Min"))
    else ok tt

unfoldable pub check_min : Option ℕ → ℕ → Result TradeError Unit
check_min none buy_amt = ok tt
check_min (some min) buy_amt = if ltb buy_amt min then err market_slipped else ok tt

unfoldable pub sell_in :
    TradingPairId
    → MarketPair
    → Option ℕ
    → Bool
    → EntityId
    → Direction
    → Game (Result TradeError TradeOutcome)
unfolding ◌>>=◌ balance_of nickname_of and_then check_liquidity check_min finish_trade sell_quote
sell_in id mkt buy_min simulate sender (buying, selling, sell_amt) = do
  bought_name ← nickname_of buying
  sold_name ← nickname_of selling
  mkt_qty_selling ← balance_of selling mkt.id
  mkt_qty_buying ← balance_of buying mkt.id
  and_then (check_liquidity buy_min mkt_qty_buying) λ _. do
    (buy_amt, charged) ← lift (sell_quote mkt_qty_buying mkt_qty_selling sell_amt)
    and_then (check_min buy_min buy_amt) λ _.
        finish_trade id mkt (buying, selling, sell_amt) (bought_name, sold_name) buy_amt charged
          simulate sender

unfoldable pub sell_normal :
    TradingPairId → ℕ → ℕ → Option ℕ → Bool → EntityId → Game (Result TradeError TradeOutcome)
unfolding ◌>>=◌ ensure and_then sell_direction sell_in
sell_normal id amount_a amount_b buy_min simulate sender = do
  mkt ← ensure id
  and_then (sell_direction id amount_a amount_b) (sell_in id mkt buy_min simulate sender)

-- `do_sell_trade`, which is `internal_do_trade_sell_fixed_amount`
unfoldable pub do_sell_trade :
    TradingPairId → ℕ → ℕ → Option ℕ → Bool → EntityId → Game (Result TradeError TradeOutcome)
unfolding sell_normal is_normal normalize
do_sell_trade id amount_a amount_b buy_min simulate sender =
    if is_normal id
    then sell_normal id amount_a amount_b buy_min simulate sender
    else sell_normal (normalize id) amount_b amount_a buy_min simulate sender

-- `get_pair_price_data`
unfoldable pub get_pair_price_data : TradingPairId → Game (ℕ × ℕ)
unfolding ◌>>=◌ ensure balance_of
get_pair_price_data id = do
  mkt ← ensure id
  mkt_qty_a ← balance_of mkt.pair.asset_a mkt.id
  mkt_qty_b ← balance_of mkt.pair.asset_b mkt.id
  pure (mkt_qty_a, mkt_qty_b)
