-- ===== src/Minting.antt =====
-- `PowerPlantProducer` of common/mine-with-friends-board/src/nfts/instances/powerplant/mod.rs.
use judica_vm.Base.{
  ℕ, true, false, none, some, List, [], ◌∷◌, ◌++◌, Outcome, done, panic, ◌>>=◌ as and_also, add,
  u128, ltb, if◌then◌else◌,
}
use judica_vm.Base.Exec.{Result, ok, err, pure, lift, gets, modify, ◌>>=◌, ◌>>◌, and_then, for_each}
use judica_vm.Base.Order.{nat_ord}
use judica_vm.Base.Map.{insert}
use judica_vm.Base.Text.{Text, ascii}
use judica_vm.Entity.{EntityId, to_decimal}
use judica_vm.Tokens.{TokenBase, TokenPointer, Currency, Price}
use judica_vm.Nfts.{PlantType, PowerPlant, NftPtr, Location, new_power_plant}
use judica_vm.Moves.{TradeError, insufficient_tokens}
use judica_vm.Board.{GameBoard, Game, token_at, balance_of, alloc}
use judica_vm.Market.{transfer_on}
use judica_vm.Trade.{do_buy_trade}
use judica_vm.Schedule.{add_nft_to}
use judica_vm.Plants.{reading, raw_materials_bill}

-- `format!("{:?}", pointer)`
abbrev pub debug_pointer : TokenPointer → Text
debug_pointer p = ascii "TokenPointer(EntityID(" ++ to_decimal p ++ ascii "))"

unfoldable pub balance_check_failed : TokenPointer → TradeError
balance_check_failed currency =
    insufficient_tokens (ascii "Balance Check Failed: " ++ debug_pointer currency)

-- The loop that checks the owner's materials.
unfoldable pub check_materials : EntityId → List (Currency × Price) → Game (Result TradeError Unit)
unfolding ◌>>=◌ balance_of balance_check_failed
check_materials owner [] = pure (ok tt)
check_materials owner ((currency, price) ∷ rest) = do
  held ← balance_of currency owner
  if ltb held price then pure (err (balance_check_failed currency)) else check_materials owner rest

unfoldable pub put_plant : NftPtr → PowerPlant → GameBoard → GameBoard
put_plant id plant g = record g {
  nfts = record g.nfts { power_plants = insert id plant g.nfts.power_plants };
}

-- `nfts.power_plants.insert(ptr, plant)`
unfoldable pub insert_plant : NftPtr → PowerPlant → Game Unit
unfolding modify put_plant
insert_plant id plant = modify (put_plant id plant)

unfoldable pub pay_material : EntityId → NftPtr → Currency × Price → Game Unit
unfolding ◌>>=◌ transfer_on
pay_material owner plant_ptr (currency, price) = do
  transfer_on currency owner plant_ptr price
  pure tt

-- What follows the check of the materials.
unfoldable pub build_plant :
    List (Currency × Price) → ℕ → Location → PlantType → EntityId → Game (Result TradeError Unit)
unfolding ◌>>=◌ alloc add_nft_to new_power_plant insert_plant pay_material for_each
build_plant resources scale location plant_type owner = do
  nft_id ← alloc
  plant_ptr ← add_nft_to (record { owner = owner; nft_id = nft_id; transfer_count = 0 })
  new_plant ← lift (new_power_plant plant_ptr plant_type location scale)
  insert_plant plant_ptr new_plant
  for_each resources (pay_material owner plant_ptr)
  pure (ok tt)

-- `mint_power_plant`
unfoldable pub mint_power_plant :
    ℕ → Location → PlantType → EntityId → Game (Result TradeError Unit)
unfolding ◌>>=◌ reading raw_materials_bill check_materials and_then build_plant
mint_power_plant scale location plant_type owner = do
  resources ← reading (raw_materials_bill plant_type scale)
  checked ← check_materials owner resources
  and_then checked λ _. build_plant resources scale location plant_type owner

unfoldable pub human_name : TokenBase → Text
human_name t = elim t.nickname [ none ↦ ascii "Material Not Found" | some n ↦ n ]

-- The price of each material: `(name, quantity, cost)`.
abbrev pub Estimate : Type 0
Estimate = List (Text × ℕ × ℕ)

unfoldable pub estimate_each :
    TokenPointer → EntityId → List (Currency × Price) → Game (Result TradeError Estimate)
unfolding ◌>>=◌ token_at human_name do_buy_trade and_then
estimate_each btc owner [] = pure (ok [])
estimate_each btc owner ((material, qty) ∷ rest) = do
  t ← token_at material
  r ← do_buy_trade (record { asset_a = material; asset_b = btc }) qty 0 none true owner
  and_then r λ outcome. do
    more ← estimate_each btc owner rest
    and_then more λ prices. pure (ok ((human_name t, qty, outcome.amount_player_sold) ∷ prices))

-- `estimate_materials_cost`
unfoldable pub estimate_materials_cost :
    ℕ → Location → PlantType → EntityId → Game (Result TradeError Estimate)
unfolding ◌>>=◌ reading raw_materials_bill estimate_each
estimate_materials_cost scale location plant_type owner = do
  resources ← reading (raw_materials_bill plant_type scale)
  btc ← gets (λ g. g.bitcoin_token_id)
  estimate_each btc owner resources

-- `iter().map(|i| i.2).sum::<u128>()`
unfoldable pub total_cost : ℕ → Estimate → Outcome ℕ
unfolding add
total_cost acc [] = done acc
total_cost acc ((_, _, cost) ∷ rest) = and_also (add u128 acc cost) (λ acc'. total_cost acc' rest)

unfoldable pub expect : {A : Type 0} → Result TradeError A → Game Unit
expect (ok _) = pure tt
expect (err _) = lift panic

unfoldable pub buy_material : TokenPointer → EntityId → Currency × Price → Game Unit
unfolding ◌>>=◌ do_buy_trade expect
buy_material btc owner (material, qty) = do
  r ← do_buy_trade (record { asset_a = material; asset_b = btc }) qty 0 none false owner
  expect r

unfoldable pub need_at_least : ℕ → TokenPointer → TradeError
need_at_least cost btc = insufficient_tokens (
    ascii "Need at least "
    ++ to_decimal cost
    ++ ascii " of "
    ++ debug_pointer btc
    ++ ascii " to mint")

-- What follows the estimate.
unfoldable pub mint_for :
    ℕ → Location → PlantType → EntityId → Estimate → Game (Result TradeError Unit)
unfolding ◌>>=◌ total_cost balance_of need_at_least reading raw_materials_bill for_each buy_material
    mint_power_plant
mint_for scale location plant_type owner estimates = do
  cost ← lift (total_cost 0 estimates)
  btc ← gets (λ g. g.bitcoin_token_id)
  funds ← balance_of btc owner
  if ltb funds cost then pure (err (need_at_least cost btc)) else do
    resources ← reading (raw_materials_bill plant_type scale)
    for_each resources (buy_material btc owner)
    mint_power_plant scale location plant_type owner

-- `super_mint`
unfoldable pub super_mint : ℕ → Location → PlantType → EntityId → Game (Result TradeError Unit)
unfolding ◌>>=◌ estimate_materials_cost and_then mint_for
super_mint scale location plant_type owner = do
  estimated ← estimate_materials_cost scale location plant_type owner
  and_then estimated (mint_for scale location plant_type owner)
