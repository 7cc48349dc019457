-- ===== src/Payout.antt =====
-- `PowerPlantEvent` of common/mine-with-friends-board/src/nfts/instances/powerplant/events.rs.
pub mod Subsidy
use judica_vm.Base.{
  ℕ, ◌*◌, ◌/◌, Bool, true, false, Option, none, some, List, [], ◌∷◌, Outcome, done, panic,
  ◌>>=◌ as and_also, unwrap, add, mul, div, u64, u128, ltb, ◌==◌, if◌then◌else◌,
}
use judica_vm.Base.Exec.{pure, lift, gets, ◌>>=◌, ◌>>◌, for_each}
use judica_vm.Base.Order.{nat_ord}
use judica_vm.Base.Map.{BTreeMap, lookup, insert, get_or_zero}
use judica_vm.Entity.{EntityId}
use judica_vm.Tokens.{TokenPointer}
use judica_vm.Nfts.{PowerPlant, NftPtr}
use judica_vm.Board.{GameBoard, Game, PowerPlantEvent, power_plant_event}
use judica_vm.Market.{mint_on}
use judica_vm.Schedule.{schedule}
use judica_vm.Plants.{reading, compute_hashrate}

abbrev pub Shares : Type 0
Shares = BTreeMap EntityId ℕ

-- `*shares.entry(owner).or_default() += share`
unfoldable pub add_share : EntityId → ℕ → Shares → Outcome Shares
unfolding add
add_share owner share shares =
    and_also (add u128 (get_or_zero (lookup owner shares)) share)
      (λ v. done (insert owner v shares))

-- The loop over the plants: the total and each owner's share.
unfoldable pub count_shares :
    BTreeMap NftPtr PowerPlant → GameBoard → ℕ → Shares → Outcome (ℕ × Shares)
unfolding compute_hashrate add add_share
count_shares [] g total shares = done (total, shares)
count_shares ((id, plant) ∷ rest) g total shares = and_also (compute_hashrate plant g) (λ share.
    and_also (add u128 total share) (λ total'. and_also (unwrap (lookup id g.nfts.nfts)) (λ nft.
      and_also (add_share nft.owner share shares) (λ shares'. count_shares rest g total' shares'))))

-- `((v * 1024 * subsidy) / total) / 1024`
unfoldable pub reward : ℕ → ℕ → ℕ → Outcome ℕ
unfolding mul div
reward subsidy total v =
    and_also (mul u128 v 1024)
      (λ a. and_also (mul u128 a subsidy) (λ b. and_also (div b total) (λ c. done (c / 1024))))

unfoldable pub rewards : ℕ → ℕ → Shares → Outcome Shares
unfolding reward
rewards subsidy total [] = done []
rewards subsidy total ((to, v) ∷ rest) =
    and_also (reward subsidy total v)
      (λ amount. and_also (rewards subsidy total rest) (λ more. done ((to, amount) ∷ more)))

unfoldable pub mint_reward : TokenPointer → EntityId × ℕ → Game Unit
unfolding mint_on
mint_reward btc (to, amount) = mint_on btc to amount

unfoldable pub pay_out : ℕ → Shares → Game Unit
unfolding ◌>>=◌ reading rewards mint_reward for_each
pay_out total shares = if total == 0 then pure tt else do
  amounts ← reading (λ g. rewards g.mining_subsidy total shares)
  btc ← gets (λ g. g.bitcoin_token_id)
  for_each amounts (mint_reward btc)

-- `PowerPlantEvent::action`
unfoldable pub power_plant_action : PowerPlantEvent → Game Unit
unfolding ◌>>=◌ reading count_shares pay_out schedule add
power_plant_action self = do
  (total, shares) ← reading (λ g. count_shares g.nfts.power_plants g 0 [])
  pay_out total shares
  now ← gets (λ g. g.elapsed_time)
  time ← lift (add u64 now self.period)
  schedule (power_plant_event (record self { time = time }))
