-- ===== src/Views.antt =====
-- What common/mine-with-friends-board/src/game/mod.rs shows to the interface, and its simulated trades.
pub mod Simulated
pub mod Agrees
use judica_vm.Base.{
  ℕ, ◌/◌, ltb, ◌==◌, Bool, true, false, not, Option, none, some, List, [], ◌∷◌, ◌++◌, map, Outcome,
  done, panic, ◌>>=◌ as and_also, unwrap, add, mul, u128, if◌then◌else◌,
}
use judica_vm.Base.Exec.{Result, ok, err, pure, lift, gets, ◌>>=◌}
use judica_vm.Base.Order.{nat_ord, text_ord}
use judica_vm.Base.Map.{BTreeMap, lookup, insert, contains_key, keys}
use judica_vm.Base.Text.{Text, ascii}
use judica_vm.Entity.{EntityId}
use judica_vm.Tokens.{TokenBase, TokenPointer, Currency, Price, balance_check}
use judica_vm.TradingPair.{TradingPairId, normalize}
use judica_vm.Nfts.{NftPtr, Location, PlantType, PowerPlant, BaseNft, NftSale}
use judica_vm.Moves.{TradeError, TradeOutcome, LogEvent}
use judica_vm.Board.{GameBoard, Game, coins, token_at, balance_of}
use judica_vm.Market.{has_market, ensure}
use judica_vm.Trade.{do_buy_trade, do_sell_trade, get_pair_price_data}
use judica_vm.Plants.{compute_hashrate}
use judica_vm.Minting.{Estimate, estimate_materials_cost}

unfoldable pub get_ux_chat_log : GameBoard → List (ℕ × EntityId × Text)
get_ux_chat_log g = g.chat

unfoldable pub get_ux_event_log : GameBoard → List (ℕ × EntityId × LogEvent)
get_ux_event_log g = g.event_log

pub record UxMaterialsPriceData : Type 0 where
  pub trading_pair : TradingPairId
  pub asset_a : Text
  pub mkt_qty_a : ℕ
  pub asset_b : Text
  pub mkt_qty_b : ℕ
  pub display_asset : Text

abbrev pub or_text : Option Text → Text → Text
or_text none other = other
or_text (some t) other = t

-- `debug` is what `{:?}` writes of a pointer.
module _ (debug : TokenPointer → Text) where
  unfoldable pub shown_name : TokenPointer → Game Text
  unfolding ◌>>=◌ token_at
  shown_name id = do
    t ← token_at id
    pure (or_text t.nickname (ascii "Unknown Token: " ++ debug id))

  unfoldable pub price_row : TradingPairId → Text → Game UxMaterialsPriceData
  unfolding ◌>>=◌ get_pair_price_data shown_name
  price_row pair nick = do
    (a, b) ← get_pair_price_data pair
    name_a ← shown_name pair.asset_a
    name_b ← shown_name pair.asset_b
    pure (record {
      trading_pair = pair;
      asset_a = name_a;
      mkt_qty_a = a;
      asset_b = name_b;
      mkt_qty_b = b;
      display_asset = nick;
    })

  unfoldable pub price_rows : List EntityId → Game (List UxMaterialsPriceData)
  unfolding ◌>>=◌ token_at normalize has_market price_row
  price_rows [] = pure []
  price_rows (id ∷ ids) = do
    t ← token_at id
    btc ← gets (λ g. g.bitcoin_token_id)
    let pair = normalize (record { asset_a = id; asset_b = btc })
    there ← gets (has_market pair)
    let rest = price_rows ids
    if not there then rest else do
      row ← price_row pair (or_text t.nickname (ascii "Unknown Token"))
      more ← rest
      pure (row ∷ more)

  unfoldable pub get_ux_materials_prices : Game (List UxMaterialsPriceData)
  unfolding ◌>>=◌ price_rows
  get_ux_materials_prices = do ids ← gets (λ g. keys (coins g)); price_rows ids

pub record UxPlantData : Type 0 where
  pub id : NftPtr
  pub coordinates : Location
  pub for_sale : Bool
  pub miners : ℕ
  pub owner : EntityId
  pub plant_type : PlantType
  pub watts : ℕ
  pub hashrate : ℕ

unfoldable pub plant_data : GameBoard → NftPtr → PowerPlant → Outcome UxPlantData
unfolding compute_hashrate balance_check
plant_data g pointer plant = and_also (unwrap (lookup pointer g.nfts.nfts)) (λ nft.
    and_also (unwrap (lookup g.asic_token_id (coins g))) (λ asic.
      and_also (compute_hashrate plant g) (λ rate. done (record {
        id = pointer;
        coordinates = plant.coordinates;
        for_sale = contains_key pointer g.nft_sales.sales;
        miners = balance_check nft.nft_id asic;
        owner = nft.owner;
        plant_type = plant.plant_type;
        watts = plant.watts;
        hashrate = rate;
      }))))

unfoldable pub plants_data : GameBoard → BTreeMap NftPtr PowerPlant → Outcome (List UxPlantData)
unfolding plant_data
plants_data g [] = done []
plants_data g ((pointer, plant) ∷ plants) =
    let rest = plants_data g plants in
    and_also (plant_data g pointer plant) (λ row. and_also rest (λ rows. done (row ∷ rows)))

unfoldable pub get_ux_power_plant_data : GameBoard → Outcome (List UxPlantData)
unfolding plants_data
get_ux_power_plant_data g = plants_data g g.nfts.power_plants

-- `retain` by the owner, and the map by the plants' ids.
unfoldable pub owned_by :
    EntityId → List UxPlantData → BTreeMap NftPtr UxPlantData → BTreeMap NftPtr UxPlantData
unfolding insert
owned_by user [] found = found
owned_by user (plant ∷ plants) found =
    owned_by user plants (if plant.owner == user then insert plant.id plant found else found)

unfoldable pub get_user_power_plants : EntityId → GameBoard → Outcome (BTreeMap NftPtr UxPlantData)
unfolding owned_by get_ux_power_plant_data
get_user_power_plants user g =
    and_also (get_ux_power_plant_data g) (λ plants. done (owned_by user plants []))

pub record UxUserInventory : Type 0 where
  pub user_power_plants : BTreeMap NftPtr UxPlantData
  pub user_token_balances : List (Text × ℕ)

unfoldable pub token_balances : EntityId → BTreeMap EntityId TokenBase → Outcome (List (Text × ℕ))
unfolding balance_check
token_balances user [] = done []
token_balances user ((_, t) ∷ tokens) =
    let rest = token_balances user tokens in
    and_also (unwrap t.nickname)
      (λ nick. and_also rest (λ more. done ((nick, balance_check user t) ∷ more)))

unfoldable pub get_ux_user_inventory : Text → GameBoard → Outcome UxUserInventory
unfolding get_user_power_plants token_balances
get_ux_user_inventory key g = and_also (unwrap (lookup key g.users_by_key)) (λ user.
    and_also (get_user_power_plants user g) (λ plants.
      and_also (token_balances user (coins g))
        (λ balances. done (record { user_power_plants = plants; user_token_balances = balances }))))

pub record UxNftSale : Type 0 where
  pub nft_id : NftPtr
  pub price : Price
  pub currency : Currency
  pub seller : EntityId
  pub transfer_count : ℕ

unfoldable pub get_ux_energy_market : GameBoard → List UxNftSale
get_ux_energy_market g =
    map
      (λ e. record {
        nft_id = e.0;
        price = e.1.price;
        currency = e.1.currency;
        seller = e.1.seller;
        transfer_count = e.1.transfer_count;
      })
      g.nft_sales.sales

unfoldable pub simulate_buy_trade :
    TradingPairId → ℕ → ℕ → EntityId → Game (Result TradeError TradeOutcome)
simulate_buy_trade pair amount_a amount_b sender =
    do_buy_trade pair amount_a amount_b none true sender

unfoldable pub simulate_sell_trade :
    TradingPairId → ℕ → ℕ → EntityId → Game (Result TradeError TradeOutcome)
simulate_sell_trade pair amount_a amount_b sender =
    do_sell_trade pair amount_a amount_b none true sender

unfoldable pub get_user_id : Text → GameBoard → Option EntityId
unfolding lookup
get_user_id key g = lookup key g.users_by_key

unfoldable pub get_power_plant_cost :
    ℕ → Location → PlantType → Text → Game (Result TradeError Estimate)
unfolding ◌>>=◌ estimate_materials_cost
get_power_plant_cost scale location plant_type key = do
  found ← gets (λ g. lookup key g.users_by_key)
  owner ← lift (unwrap found)
  estimate_materials_cost scale location plant_type owner
