-- ===== src/Board.antt =====
-- The `GameBoard` of common/mine-with-friends-board/src/game/mod.rs, with the callback registry
-- and the market registry that it holds, and its methods' way to read and write it.
use judica_vm.Base.{ℕ, Bool, none, some, List, Outcome, done, panic}
use judica_vm.Base.Exec.{Exec, pure, ◌>>=◌}
use judica_vm.Base.Order.{nat_ord}
use judica_vm.Base.Map.{BTreeMap, lookup, insert}
use judica_vm.Base.Text.{Text}
use judica_vm.Entity.{EntityId, EntityIdAllocator, make}
use judica_vm.Tokens.{Price, Currency, TokenPointer, TokenBase, TokenRegistry, balance_check}
use judica_vm.TradingPair.{TradingPairId}
use judica_vm.Nfts.{NftPtr, PlantType, BaseNft, NftRegistry, NftSaleRegistry}
use judica_vm.Moves.{LogEvent}

-- token_swap.rs
pub record MarketPair : Type 0 where
  pub pair : TradingPairId
  pub id : EntityId
  pub lp : TokenPointer
  pub reserve_a : ℕ
  pub reserve_b : ℕ

-- The bots of tokens/instances: `ASICProducer`, `SteelSmelter`, `SiliconRefinery` and
-- `ConcreteMiller` have the same fields.
pub record Producer : Type 0 where
  pub id : EntityId
  pub total_units : ℕ
  pub base_price : Price
  pub price_asset : TokenPointer
  pub hash_asset : TokenPointer
  pub adjusts_every : ℕ
  pub elapsed_time : ℕ
  pub first : Bool

-- The `TradingPairID` that every bot deposits to and sells in.
unfoldable pub pair_of : Producer → TradingPairId
pair_of p = record { asset_a = p.hash_asset; asset_b = p.price_asset }

pub record PowerPlantEvent : Type 0 where
  pub time : ℕ
  pub period : ℕ

pub record CoinLockup : Type 0 where
  pub id : NftPtr
  pub time_when_free : ℕ
  pub asset : TokenPointer

-- The types that implement the trait `Callback`.
pub data Callback : Type 0 where
  power_plant_event : PowerPlantEvent → Callback
  asic_producer steel_smelter silicon_refinery concrete_miller : Producer → Callback
  coin_lockup : CoinLockup → Callback

-- callbacks.rs
pub record CallbackRegistry : Type 0 where
  pub callbacks : BTreeMap ℕ (List Callback)

pub record Tick : Type 0 where
  pub first_time : ℕ
  pub elapsed : ℕ

pub record UserData : Type 0 where
  pub key : Text

pub record GameBoard : Type 0 where
  pub tokens : TokenRegistry
  pub markets : BTreeMap TradingPairId MarketPair
  pub turn_count : ℕ
  pub alloc : EntityIdAllocator
  pub users : BTreeMap EntityId UserData
  pub users_by_key : BTreeMap Text EntityId
  pub nfts : NftRegistry
  pub nft_sales : NftSaleRegistry
  pub player_move_sequence : BTreeMap EntityId ℕ
  pub bitcoin_token_id : TokenPointer
  pub real_sats_token_id : TokenPointer
  pub steel_token_id : TokenPointer
  pub silicon_token_id : TokenPointer
  pub concrete_token_id : TokenPointer
  pub asic_token_id : TokenPointer
  pub root_user : EntityId
  pub callbacks : CallbackRegistry
  pub elapsed_time : ℕ
  pub finish_time : ℕ
  pub mining_subsidy : ℕ
  pub ticks : BTreeMap EntityId Tick
  pub chat : List (ℕ × EntityId × Text)
  pub nicks : BTreeMap EntityId Text
  pub chat_counter : ℕ
  pub event_log : List (ℕ × EntityId × LogEvent)
  pub event_log_counter : ℕ
  pub plant_prices : List (PlantType × List (Currency × Price))

-- A method with `&mut GameBoard`.
abbrev pub Game : Type 0 → Type 0
Game = Exec GameBoard

-- The coins and the allocator, which is all that the invariants of money speak of.
abbrev pub coins : GameBoard → BTreeMap EntityId TokenBase
coins g = g.tokens.tokens

abbrev pub put_token : TokenPointer → TokenBase → GameBoard → GameBoard
put_token id t g = record g { tokens = record g.tokens { tokens = insert id t g.tokens.tokens } }

-- `&self.tokens[id]`, of `Index`: a pointer to no token panics.
unfoldable pub token_at : TokenPointer → Game TokenBase
token_at id g = elim (lookup id (coins g)) [ none ↦ panic | some t ↦ done (t, g) ]

unfoldable pub put_back :
    {A : Type 0} → TokenPointer → GameBoard → Outcome (A × TokenBase) → Outcome (A × GameBoard)
put_back id g panic = panic
put_back id g (done (a, t)) = done (a, put_token id t g)

-- A method call on `&mut self.tokens[id]`, of `IndexMut`.
unfoldable pub on_token :
    {A : Type 0} → TokenPointer → (TokenBase → Outcome (A × TokenBase)) → Game A
unfolding put_back
on_token id f g = elim (lookup id (coins g)) [ none ↦ panic | some t ↦ put_back id g (f t) ]

-- `GameBoard::alloc`
unfoldable pub alloc : Game EntityId
unfolding make
alloc g = elim (make g.alloc) [ panic ↦ panic | done (id, a) ↦ done (id, record g { alloc = a }) ]

-- `&self.nfts[id]`
unfoldable pub nft_at : NftPtr → Game BaseNft
nft_at id g = elim (lookup id g.nfts.nfts) [ none ↦ panic | some n ↦ done (n, g) ]

-- `token.balance_check(to)` on `self.tokens[id]`
unfoldable pub balance_of : TokenPointer → EntityId → Game ℕ
unfolding token_at ◌>>=◌ balance_check
balance_of id to = do t ← token_at id; pure (balance_check to t)
