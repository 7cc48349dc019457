-- ===== src/Market.antt =====
-- The market pairs of common/mine-with-friends-board/src/tokens/token_swap.rs: creation, deposits
-- and the swap that checks the constant product.
use judica_vm.Base.{
  ℕ, Bool, not, ◌||◌, Option, none, some, [], ◌++◌, Outcome, done, unwrap, add, mul, div, u128, ltb,
  ◌==◌, if◌then◌else◌,
}
use judica_vm.Base.Exec.{Result, ok, err, pure, lift, gets, modify, ◌>>=◌, ◌>>◌, require}
use judica_vm.Base.Order.{nat_ord}
use judica_vm.Base.Map.{lookup, insert, contains_key}
use judica_vm.Base.Text.{Text, ascii}
use judica_vm.Base.{◌>>=◌ as and_also}
use judica_vm.Entity.{EntityId, to_decimal}
use judica_vm.Tokens.{TokenBase, TokenPointer, Price, total_coins, mint, transfer, new_token}
use judica_vm.TradingPair.{TradingPairId, trading_pair_ord, is_normal, normalize}
use judica_vm.Moves.{TradeError, invalid_trade, insufficient_tokens}
use judica_vm.Board.{GameBoard, Game, MarketPair, token_at, on_token, balance_of, alloc}

-- `token.transfer(sender, receiver, amount)` on `tokens[id]`
unfoldable pub transfer_on : TokenPointer → EntityId → EntityId → Price → Game Bool
unfolding on_token transfer
transfer_on id sender receiver amount = on_token id (transfer sender receiver amount)

-- `token.mint(to, amount)` on `tokens[id]`
unfoldable pub mint_on : TokenPointer → EntityId → Price → Game Unit
unfolding on_token mint
mint_on id to amount = on_token id (λ t. and_also (mint to amount t) (λ t'. done (tt, t')))

-- `has_market`
unfoldable pub has_market : TradingPairId → GameBoard → Bool
unfolding normalize
has_market pair g = contains_key (normalize pair) g.markets

unfoldable pub name_of : TokenPointer → TokenBase → Text
unfolding to_decimal
name_of id t = elim t.nickname [ none ↦ to_decimal id | some n ↦ n ]

-- The token of a pair's liquidity shares.
unfoldable pub shares_token : EntityId → Text → Text → TokenBase
shares_token id a b = record {
  balances = [];
  total = 0;
  this = id;
  nickname = some (ascii "swap(" ++ a ++ ascii "," ++ b ++ ascii ")::shares");
}

unfoldable pub open_market : TradingPairId → TokenBase → EntityId → GameBoard → GameBoard
unfolding new_token
open_market pair shares id g =
    let (lp, tokens) = new_token shares g.tokens in
    record g {
      tokens = tokens;
      markets =
          insert pair (record { pair = pair; id = id; lp = lp; reserve_a = 0; reserve_b = 0 })
            g.markets;
    }

-- What follows once the names are read.
unfoldable pub allocate_market : TradingPairId → Text → Text → Game MarketPair
unfolding ◌>>=◌ alloc shares_token open_market
allocate_market pair name_a name_b = do
  base_id ← alloc
  id ← alloc
  modify (open_market pair (shares_token base_id name_a name_b) id)
  pure (record { pair = pair; id = id; lp = base_id; reserve_a = 0; reserve_b = 0 })

unfoldable pub create_market : TradingPairId → Game MarketPair
unfolding ◌>>=◌ token_at name_of allocate_market
create_market pair = do
  a ← token_at pair.asset_a
  b ← token_at pair.asset_b
  allocate_market pair (name_of pair.asset_a a) (name_of pair.asset_b b)

unfoldable pub occupied_or_vacant : TradingPairId → Option MarketPair → Game MarketPair
unfolding create_market
occupied_or_vacant pair (some found) = pure found
occupied_or_vacant pair none = create_market pair

-- `ConstantFunctionMarketMakerPair::ensure`
unfoldable pub ensure : TradingPairId → Game MarketPair
unfolding ◌>>=◌ occupied_or_vacant normalize
ensure id = do
  found ← gets (λ g. lookup (normalize id) g.markets)
  occupied_or_vacant (normalize id) found

unfoldable pub put_market : TradingPairId → MarketPair → GameBoard → GameBoard
put_market key p g = record g { markets = insert key p g.markets }

-- `markets.get_mut(&pair).expect(..)`, and what is written through it.
unfoldable pub on_market : TradingPairId → (MarketPair → Outcome MarketPair) → Game Unit
unfolding ◌>>=◌ put_market
on_market key f = do
  found ← gets (λ g. lookup key g.markets)
  p ← lift (unwrap found)
  p' ← lift (f p)
  modify (put_market key p')

unfoldable pub add_reserves : ℕ → ℕ → MarketPair → Outcome MarketPair
unfolding add
add_reserves a b p = and_also (add u128 p.reserve_a a) (λ reserve_a.
    and_also (add u128 p.reserve_b b)
      (λ reserve_b. done (record p { reserve_a = reserve_a; reserve_b = reserve_b })))

-- The end of a deposit, once both assets are paid: the shares and the reserves.
unfoldable pub issue_shares : TradingPairId → MarketPair → ℕ → ℕ → EntityId → Game Unit
unfolding ◌>>=◌ token_at balance_of mint_on on_market add_reserves mul div
issue_shares id mkt amount_a amount_b from = do
  lp ← token_at mkt.lp
  scaled ← lift (mul u128 (total_coins lp) amount_a)
  amt_a ← balance_of id.asset_a mkt.id
  to_mint ← lift (div scaled amt_a)
  mint_on mkt.lp from to_mint
  on_market mkt.pair (add_reserves amount_a amount_b)

unfoldable pub pay_in : TradingPairId → MarketPair → ℕ → ℕ → EntityId → Game Unit
unfolding ◌>>=◌ transfer_on issue_shares
pay_in id mkt amount_a amount_b from = do
  paid_a ← transfer_on id.asset_a from mkt.id amount_a
  if not paid_a then pure tt else do
    paid_b ← transfer_on id.asset_b from mkt.id amount_b
    if paid_b
        then issue_shares id mkt amount_a amount_b from
        else do transfer_on id.asset_a mkt.id from amount_a; pure tt

unfoldable pub deposit_normal : TradingPairId → ℕ → ℕ → EntityId → Game Unit
unfolding ◌>>=◌ ensure balance_of pay_in mul
deposit_normal id amount_a amount_b from = if amount_a == 0 || amount_b == 0 then pure tt else do
  mkt ← ensure id
  mkt_b ← balance_of id.asset_b mkt.id
  left ← lift (mul u128 amount_a mkt_b)
  mkt_a ← balance_of id.asset_a mkt.id
  right ← lift (mul u128 mkt_a amount_b)
  if not (left == right) then pure tt else pay_in id mkt amount_a amount_b from

-- `ConstantFunctionMarketMaker::deposit`
unfoldable pub deposit : TradingPairId → ℕ → ℕ → EntityId → Game Unit
unfolding deposit_normal is_normal normalize
deposit id amount_a amount_b from =
    if is_normal id
    then deposit_normal id amount_a amount_b from
    else deposit_normal (normalize id) amount_b amount_a from

-- `amount > 0 && transfer(..)`: what was sent.
unfoldable pub send : TokenPointer → EntityId → EntityId → ℕ → Game ℕ
unfolding ◌>>=◌ transfer_on
send asset sender receiver amount =
    if not (ltb 0 amount)
    then pure 0
    else do sent ← transfer_on asset sender receiver amount; pure (if sent then amount else 0)

-- Both transfers back must succeed.
unfoldable pub undo_swap : MarketPair → EntityId → ℕ → ℕ → Game Unit
unfolding ◌>>=◌ transfer_on require
undo_swap mkt sender amount_a amount_b = do
  back_a ← transfer_on mkt.pair.asset_a sender mkt.id amount_a
  require back_a
  back_b ← transfer_on mkt.pair.asset_b sender mkt.id amount_b
  require back_b

unfoldable pub set_reserves : ℕ → ℕ → MarketPair → Outcome MarketPair
set_reserves a b p = done (record p { reserve_a = a; reserve_b = b })

-- The check of the constant product against the reserves on record.
unfoldable pub settle_swap : MarketPair → EntityId → ℕ → ℕ → Game (Result TradeError Unit)
unfolding ◌>>=◌ balance_of undo_swap on_market set_reserves mul
settle_swap mkt sender amount_a amount_b = do
  a_reserves_2 ← balance_of mkt.pair.asset_a mkt.id
  b_reserves_2 ← balance_of mkt.pair.asset_b mkt.id
  k_2 ← lift (mul u128 a_reserves_2 b_reserves_2)
  k_1 ← lift (mul u128 mkt.reserve_a mkt.reserve_b)
  if ltb k_2 k_1
      then undo_swap mkt sender amount_a amount_b
        >> pure (err (invalid_trade (ascii "Reserves Not Preserved")))
      else on_market mkt.pair (set_reserves a_reserves_2 b_reserves_2) >> pure (ok tt)

unfoldable pub raw_swap_normal : TradingPairId → ℕ → ℕ → EntityId → Game (Result TradeError Unit)
unfolding ◌>>=◌ ensure send undo_swap settle_swap
raw_swap_normal id amount_a amount_b sender = do
  mkt ← ensure id
  send_a_amt ← send mkt.pair.asset_a mkt.id sender amount_a
  send_b_amt ← send mkt.pair.asset_b mkt.id sender amount_b
  if not (send_a_amt == amount_a) || not (send_b_amt == amount_b)
      then undo_swap mkt sender send_a_amt send_b_amt
        >> pure (err (insufficient_tokens (ascii "Insufficient funds asset")))
      else settle_swap mkt sender amount_a amount_b

-- `ConstantFunctionMarketMaker::raw_swap`
unfoldable pub raw_swap : TradingPairId → ℕ → ℕ → EntityId → Game (Result TradeError Unit)
unfolding raw_swap_normal is_normal normalize
raw_swap id amount_a amount_b sender =
    if is_normal id
    then raw_swap_normal id amount_a amount_b sender
    else raw_swap_normal (normalize id) amount_b amount_a sender
