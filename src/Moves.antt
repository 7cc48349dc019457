-- ===== src/Moves.antt =====
-- common/mine-with-friends-board/src/game/game_move.rs and the error types of the moves.
use judica_vm.Base.{ℕ, Bool, Option}
use judica_vm.Base.Text.{Text}
use judica_vm.Entity.{EntityId}
use judica_vm.Tokens.{TokenPointer, Currency, Price}
use judica_vm.TradingPair.{TradingPairId}
use judica_vm.Nfts.{NftPtr, PlantType, Location}

pub record Trade : Type 0 where
  pub pair : TradingPairId
  pub amount_a : ℕ
  pub amount_b : ℕ
  pub sell : Bool
  pub cap : Option ℕ

pub record MintPowerPlant : Type 0 where
  pub scale : ℕ
  pub location : Location
  pub plant_type : PlantType

pub record PurchaseNft : Type 0 where
  pub nft_id : NftPtr
  pub limit_price : Price
  pub currency : Currency

pub record ListNftForSale : Type 0 where
  pub nft_id : NftPtr
  pub price : Price
  pub currency : Currency

pub record SendTokens : Type 0 where
  pub to : EntityId
  pub amount : Price
  pub currency : Currency

pub record RemoveTokens : Type 0 where
  pub nft_id : NftPtr
  pub amount : Price
  pub currency : Currency

pub data GameMove : Type 0 where
  heartbeat : GameMove
  trade : Trade → GameMove
  purchase_nft : PurchaseNft → GameMove
  list_nft_for_sale : ListNftForSale → GameMove
  send_tokens : SendTokens → GameMove
  remove_tokens : RemoveTokens → GameMove
  chat : Text → GameMove
  mint_power_plant : MintPowerPlant → GameMove
  super_mint_power_plant : MintPowerPlant → GameMove

-- `MoveEnvelope` of lib.rs
pub record MoveEnvelope : Type 0 where
  pub d : GameMove
  pub sequence : ℕ
  pub time_millis : ℕ

-- token_swap.rs
pub data TradeError : Type 0 where
  invalid_trade : Text → TradeError
  insufficient_tokens : Text → TradeError
  market_slipped : TradeError

pub record TradeOutcome : Type 0 where
  pub trading_pair : TradingPairId
  pub asset_player_purchased : Text
  pub amount_player_purchased : ℕ
  pub asset_player_sold : Text
  pub amount_player_sold : ℕ

-- sanitize.rs
pub data SanitizationError : Type 0 where
  invalid_token_pointer : TokenPointer → SanitizationError
  invalid_nft_ptr : NftPtr → SanitizationError
  invalid_user : EntityId → SanitizationError
  mint_scale_is_zero : SanitizationError

-- game/mod.rs
pub data FinishReason : Type 0 where
  time_expired : FinishReason
  dominating_player : EntityId → FinishReason

pub data MoveRejectReason : Type 0 where
  no_such_user : MoveRejectReason
  game_is_finished : FinishReason → MoveRejectReason
  move_sanitization_error : SanitizationError → MoveRejectReason
  trade_rejected : TradeError → MoveRejectReason

-- `LogEvent::Other` is never logged by the game.
pub data LogEvent : Type 0 where
  game_move : GameMove → LogEvent
  move_reject_reason : MoveRejectReason → LogEvent
