-- ===== src/Producers/Steel.antt =====
-- common/mine-with-friends-board/src/tokens/instances/steel.rs
use judica_vm.Base.{◌/◌, min, false, none, add, mul, sub, u64, u128, ltb, if◌then◌else◌}
use judica_vm.Base.Exec.{pure, lift, gets, ◌>>=◌, ◌>>◌}
use judica_vm.Board.{Game, Producer, steel_smelter, balance_of, pair_of}
use judica_vm.Market.{mint_on, deposit}
use judica_vm.Trade.{do_sell_trade}
use judica_vm.Schedule.{schedule}

-- The first round.
unfoldable pub steel_start : Producer → Game Producer
unfolding ◌>>=◌ pair_of mint_on deposit mul sub
steel_start p = do
  mint_on p.hash_asset p.id p.total_units
  let start = p.total_units / 10
  base ← lift (mul u128 p.base_price start)
  mint_on p.price_asset p.id base
  deposit (pair_of p) start base p.id
  left ← lift (sub p.total_units start)
  pure (record p { first = false; total_units = left })

-- `SteelSmelter::action`
unfoldable pub steel_action : Producer → Game Unit
unfolding ◌>>=◌ pair_of steel_start balance_of do_sell_trade schedule add
steel_action self = do
  p ← if self.first then steel_start self else pure self
  balance ← balance_of p.hash_asset p.id
  do_sell_trade (pair_of p) (min (balance / 100) balance) 0 none false p.id
  now ← gets (λ g. g.elapsed_time)
  elapsed_time ← lift (add u64 now p.adjusts_every)
  left ← balance_of p.hash_asset p.id
  if ltb 0 left
      then schedule (steel_smelter (record p { elapsed_time = elapsed_time }))
      else pure tt
