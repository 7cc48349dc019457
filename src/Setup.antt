-- ===== src/Setup.antt =====
-- `GameBoard::new`, `setup_game` and `post_init` of common/mine-with-friends-board/src/game/mod.rs,
-- as they run outside of the crate's tests.
use Prim.Native.Nat.{Ordering}
use judica_vm.Base.{ℕ, Bool, true, false, List, [], ◌∷◌, Outcome, done, panic, leb, ◌==◌}
use judica_vm.Base.Exec.{pure, lift, gets, modify, ◌>>=◌, ◌>>◌, for_each}
use judica_vm.Base.Order.{nat_ord, text_ord, text_cmp}
use judica_vm.Base.Sort.{sort, dedup}
use judica_vm.Base.Map.{BTreeMap, insert, values}
use judica_vm.Base.Text.{Text}
use judica_vm.Entity.{EntityId}
use judica_vm.Tokens.{TokenPointer}
use judica_vm.Nfts.{PlantType, solar, hydro, flare, Location, pos, negsuc, new_power_plant}
use judica_vm.Board.{
  GameBoard, Game, MarketPair, Callback, Producer, power_plant_event, asic_producer, steel_smelter,
  silicon_refinery, concrete_miller, alloc,
}
use judica_vm.Market.{mint_on, ensure}
use judica_vm.Schedule.{schedule, add_nft_to}
use judica_vm.Minting.{insert_plant}

pub record GameSetup : Type 0 where
  pub players : List Text
  pub start_amount : ℕ
  pub finish_time : ℕ

abbrev pub no_finish_time : ℕ
no_finish_time = 9_007_199_254_740_991

unfoldable pub text_leb : Text → Text → Bool
text_leb s t = elim (text_cmp s t) [ Ordering.gt ↦ false | _ ↦ true ]

unfoldable pub text_eq : Text → Text → Bool
text_eq s t = elim (text_cmp s t) [ Ordering.eq ↦ true | _ ↦ false ]

unfoldable pub put_user : Text → EntityId → GameBoard → GameBoard
put_user player id g = record g {
  users = insert id (record { key = player }) g.users;
  users_by_key = insert player id g.users_by_key;
}

unfoldable pub add_player : ℕ → Text → Game Unit
unfolding ◌>>=◌ alloc put_user mint_on
add_player start_amount player = do
  id ← alloc
  modify (put_user player id)
  real_sats ← gets (λ g. g.real_sats_token_id)
  mint_on real_sats id start_amount
  bitcoin ← gets (λ g. g.bitcoin_token_id)
  mint_on bitcoin id start_amount

unfoldable pub set_finish_time : ℕ → GameBoard → GameBoard
set_finish_time t g = record g { finish_time = t }

-- `GameSetup::setup_game`
unfoldable pub setup_game : GameSetup → Game Unit
unfolding ◌>>=◌ set_finish_time add_player for_each sort dedup text_leb text_eq
setup_game setup = do
  modify (set_finish_time setup.finish_time)
  for_each (dedup text_eq (sort text_leb setup.players)) (add_player setup.start_amount)

-- The four markets against bitcoin.
unfoldable pub make_market : TokenPointer → Game MarketPair
unfolding ◌>>=◌ ensure
make_market id = do
  btc ← gets (λ g. g.bitcoin_token_id)
  ensure (record { asset_a = btc; asset_b = id })

unfoldable pub make_markets : Game Unit
unfolding ◌>>=◌ make_market
make_markets = do
  make_market (← gets (λ g. g.steel_token_id))
  make_market (← gets (λ g. g.silicon_token_id))
  make_market (← gets (λ g. g.concrete_token_id))
  make_market (← gets (λ g. g.asic_token_id))
  pure tt

unfoldable pub fund_root : Game Unit
unfolding ◌>>=◌ mint_on
fund_root = do
  root ← gets (λ g. g.root_user)
  mint_on (← gets (λ g. g.bitcoin_token_id)) root 10_000_000_000
  mint_on (← gets (λ g. g.real_sats_token_id)) root 30_000

unfoldable pub first_key : {A : Type 0} → BTreeMap ℕ A → Outcome ℕ
first_key [] = panic
first_key ((k, _) ∷ _) = done k

-- A bot with the units and the price that all of them start from.
unfoldable pub new_producer : EntityId → TokenPointer → TokenPointer → ℕ → Producer
new_producer id price_asset hash_asset adjusts_every = record {
  id = id;
  total_units = 100_000;
  base_price = 100_000;
  price_asset = price_asset;
  hash_asset = hash_asset;
  adjusts_every = adjusts_every;
  elapsed_time = 0;
  first = true;
}

unfoldable pub schedule_asics : EntityId → TokenPointer → Game Unit
unfolding ◌>>=◌ schedule first_key new_producer
schedule_asics id btc = do
  first ← gets (λ g. first_key g.tokens.hashboards)
  hash_asset ← lift first
  schedule (asic_producer (new_producer id btc hash_asset 10_007))

-- One of the other three bots.
unfoldable pub schedule_bot :
    (Producer → Callback) → (GameBoard → TokenPointer) → ℕ → TokenPointer → Game Unit
unfolding ◌>>=◌ alloc schedule new_producer
schedule_bot bot asset_of adjusts_every btc = do
  id ← alloc
  hash_asset ← gets asset_of
  schedule (bot (new_producer id btc hash_asset adjusts_every))

unfoldable pub schedule_bots : TokenPointer → Game Unit
unfolding ◌>>=◌ schedule_bot
schedule_bots btc = do
  schedule_bot steel_smelter (λ g. g.steel_token_id) 5_003 btc
  schedule_bot silicon_refinery (λ g. g.silicon_token_id) 25_013 btc
  schedule_bot concrete_miller (λ g. g.concrete_token_id) 14_009 btc

unfoldable pub schedule_events : Game Unit
unfolding ◌>>=◌ alloc schedule schedule_asics schedule_bots
schedule_events = do
  id ← alloc
  schedule (power_plant_event (record { time = 0; period = 11_003 }))
  btc ← gets (λ g. g.bitcoin_token_id)
  schedule_asics id btc
  schedule_bots btc

abbrev pub start_locations : List (Location × PlantType)
start_locations =
    ((pos 38_075_660, negsuc 120_030_169), flare)
    ∷ ((negsuc 2_346_659, negsuc 76_223_049), hydro)
    ∷ ((negsuc 5_203_059, negsuc 66_345_369), solar)
    ∷ ((pos 66_596_730, pos 31_545_250), flare)
    ∷ ((pos 29_521_143, pos 26_620_126), hydro)
    ∷ ((pos 58_162_163, pos 39_188_486), solar)
    ∷ ((pos 28_599_246, pos 116_180_671), flare)
    ∷ ((negsuc 29_625_743, pos 138_416_999), hydro)
    ∷ ((negsuc 12_141_091, pos 35_233_406), solar)
    ∷ ((pos 21_968_789, negsuc 12_535_148), flare)
    ∷ []

unfoldable pub place_player : EntityId → Location → PlantType → Game Unit
unfolding ◌>>=◌ alloc add_nft_to new_power_plant insert_plant mint_on
place_player player coordinates plant_type = do
  nft_id ← alloc
  plant_ptr ← add_nft_to (record { owner = player; nft_id = nft_id; transfer_count = 0 })
  new_plant ← lift (new_power_plant plant_ptr plant_type coordinates 1)
  insert_plant plant_ptr new_plant
  asic ← gets (λ g. g.asic_token_id)
  mint_on asic plant_ptr 1

unfoldable pub base_nft : EntityId → Game Unit
unfolding ◌>>=◌ alloc add_nft_to
base_nft player = do
  nft_id ← alloc
  add_nft_to (record { owner = player; nft_id = nft_id; transfer_count = 0 })
  pure tt

-- The loop over the players; `start_locations[i]` panics past the end, after the base NFT is made.
unfoldable pub place_players : List EntityId → List (Location × PlantType) → Game Unit
unfolding ◌>>=◌ place_player base_nft
place_players [] locations = pure tt
place_players (player ∷ rest) [] = base_nft player >> lift panic
place_players (player ∷ rest) ((coordinates, plant_type) ∷ locations) =
    place_player player coordinates plant_type >> place_players rest locations

unfoldable pub player_ids : GameBoard → List EntityId
unfolding sort dedup
player_ids g = dedup ◌==◌ (sort leb (values g.users_by_key))

-- `post_init`
unfoldable pub post_init : Game Unit
unfolding ◌>>=◌ make_markets fund_root schedule_events player_ids place_players
post_init = do
  make_markets
  fund_root
  schedule_events
  p ← gets player_ids
  place_players p start_locations
