-- ===== src/Quote.antt =====
-- The arithmetic of a trade in common/mine-with-friends-board/src/tokens/token_swap.rs: `DivExt`
-- and the amounts that a constant-product market asks and gives.
pub mod Round
pub mod Sell
pub mod Buy
use judica_vm.Base.{ℕ, Outcome, done, ◌>>=◌, add, mul, sub, div, u128}

-- `(self + rhs - 1) / rhs`
unfoldable pub roundup_div : ℕ → ℕ → Outcome ℕ
unfolding add sub div
roundup_div a b = do total ← add u128 a b; less ← sub total 1; div less b

-- What a sale of `sell_amt` buys, and what it is charged: `(buy_amt, sell_amt)`.
unfoldable pub sell_quote : ℕ → ℕ → ℕ → Outcome (ℕ × ℕ)
unfolding mul add sub
sell_quote mkt_qty_buying mkt_qty_selling sell_amt = do
  k ← mul u128 mkt_qty_buying mkt_qty_selling
  after ← add u128 mkt_qty_selling sell_amt
  kept ← roundup_div k after
  buy_amt ← sub mkt_qty_buying kept
  left ← sub mkt_qty_buying buy_amt
  needed ← roundup_div k left
  charged ← sub needed mkt_qty_selling
  done (buy_amt, charged)

-- What `buy_amt` costs, and what is then handed out: `(sell_amt, buy_amt)`.
unfoldable pub buy_quote : ℕ → ℕ → ℕ → Outcome (ℕ × ℕ)
unfolding mul add sub
buy_quote mkt_qty_selling mkt_qty_buying buy_amt = do
  k ← mul u128 mkt_qty_selling mkt_qty_buying
  left ← sub mkt_qty_buying buy_amt
  needed ← roundup_div k left
  sell_amt ← sub needed mkt_qty_selling
  after ← add u128 mkt_qty_selling sell_amt
  kept ← roundup_div k after
  bought ← sub mkt_qty_buying kept
  done (sell_amt, bought)
