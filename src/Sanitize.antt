-- ===== src/Sanitize.antt =====
-- common/mine-with-friends-board/src/sanitize.rs: the moves that a player sends are checked
-- against the board before they are played. Each `sanitize` returns the value that it was given.
pub mod Valid
use judica_vm.Base.{ℕ, Bool, true, false, not, ◌||◌, ◌==◌, if◌then◌else◌}
use judica_vm.Base.Exec.{Result, ok, err}
use judica_vm.Base.Order.{nat_ord}
use judica_vm.Base.Map.{contains_key}
use judica_vm.Tokens.{TokenPointer}
use judica_vm.TradingPair.{TradingPairId}
use judica_vm.Nfts.{NftPtr}
use judica_vm.Moves.{
  GameMove, heartbeat, trade, purchase_nft, list_nft_for_sale, send_tokens, remove_tokens, chat,
  mint_power_plant, super_mint_power_plant, Trade, MintPowerPlant, PurchaseNft, ListNftForSale,
  SendTokens, RemoveTokens, SanitizationError, invalid_token_pointer, invalid_nft_ptr, invalid_user,
  mint_scale_is_zero,
}
use judica_vm.Board.{GameBoard, coins}

abbrev pub Sanitized : Type 0 → Type 0
Sanitized A = Result SanitizationError A

-- `?` on the results of this module.
infixl 5 ◌>>=◌ ◌>>◌
abbrev pub ◌>>=◌ : {A B : Type 0} → Sanitized A → (A → Sanitized B) → Sanitized B
ok a >>= f = f a
err e >>= f = err e

abbrev pub ◌>>◌ : {A B : Type 0} → Sanitized A → Sanitized B → Sanitized B
m >> n = m >>= λ _. n

unfoldable pub sanitize_token : GameBoard → TokenPointer → Sanitized TokenPointer
sanitize_token g p = if contains_key p (coins g) then ok p else err (invalid_token_pointer p)

unfoldable pub sanitize_nft : GameBoard → NftPtr → Sanitized NftPtr
sanitize_nft g p = if contains_key p g.nfts.nfts then ok p else err (invalid_nft_ptr p)

unfoldable pub sanitize_pair : GameBoard → TradingPairId → Sanitized TradingPairId
unfolding sanitize_token
sanitize_pair g p = do
  asset_a ← sanitize_token g p.asset_a
  asset_b ← sanitize_token g p.asset_b
  ok (record { asset_a = asset_a; asset_b = asset_b })

unfoldable pub sanitize_trade : GameBoard → Trade → Sanitized Trade
unfolding sanitize_pair
sanitize_trade g t = do pair ← sanitize_pair g t.pair; ok (record t { pair = pair })

unfoldable pub sanitize_mint : MintPowerPlant → Sanitized MintPowerPlant
sanitize_mint m = if m.scale == 0 then err mint_scale_is_zero else ok m

unfoldable pub sanitize_purchase : GameBoard → PurchaseNft → Sanitized PurchaseNft
unfolding sanitize_nft sanitize_token
sanitize_purchase g p = do
  nft_id ← sanitize_nft g p.nft_id
  currency ← sanitize_token g p.currency
  ok (record p { nft_id = nft_id; currency = currency })

unfoldable pub sanitize_listing : GameBoard → ListNftForSale → Sanitized ListNftForSale
unfolding sanitize_nft sanitize_token
sanitize_listing g l = do
  nft_id ← sanitize_nft g l.nft_id
  currency ← sanitize_token g l.currency
  ok (record l { nft_id = nft_id; currency = currency })

unfoldable pub sanitize_send : GameBoard → SendTokens → Sanitized SendTokens
unfolding sanitize_token
sanitize_send g s =
    if not (contains_key s.to g.users || contains_key s.to g.nfts.nfts)
    then err (invalid_user s.to)
    else do currency ← sanitize_token g s.currency; ok (record s { currency = currency })

unfoldable pub sanitize_removal : GameBoard → RemoveTokens → Sanitized RemoveTokens
unfolding sanitize_nft sanitize_token
sanitize_removal g r = do
  nft_id ← sanitize_nft g r.nft_id
  currency ← sanitize_token g r.currency
  ok (record r { nft_id = nft_id; currency = currency })

-- `GameMove::sanitize`
unfoldable pub sanitize : GameBoard → GameMove → Sanitized GameMove
unfolding sanitize_removal sanitize_trade sanitize_mint sanitize_purchase sanitize_listing
    sanitize_send
sanitize g (remove_tokens x) = do y ← sanitize_removal g x; ok (remove_tokens y)
sanitize g heartbeat = ok heartbeat
sanitize g (trade x) = do y ← sanitize_trade g x; ok (trade y)
sanitize g (mint_power_plant x) = do y ← sanitize_mint x; ok (mint_power_plant y)
sanitize g (super_mint_power_plant x) = do y ← sanitize_mint x; ok (super_mint_power_plant y)
sanitize g (purchase_nft x) = do y ← sanitize_purchase g x; ok (purchase_nft y)
sanitize g (list_nft_for_sale x) = do y ← sanitize_listing g x; ok (list_nft_for_sale y)
sanitize g (send_tokens x) = do y ← sanitize_send g x; ok (send_tokens y)
sanitize g (chat x) = ok (chat x)
