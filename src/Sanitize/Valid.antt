-- ===== src/Sanitize/Valid.antt =====
-- sanitize.rs: which moves pass the sanitizer, and that it does not change them.
use judica_vm.Base.{◌≡◌, refl, arith, Bool, true, false, not, ◌&&◌, ◌||◌, ◌==◌}
use judica_vm.Base.Exec.{ok, err}
use judica_vm.Base.Map.{contains_key}
use judica_vm.Base.Order.{nat_ord}
use judica_vm.Board.{GameBoard, coins}
use judica_vm.Moves.{
  GameMove, heartbeat, trade, purchase_nft, list_nft_for_sale, send_tokens, remove_tokens, chat,
  mint_power_plant, super_mint_power_plant,
}
use judica_vm.Tokens.{TokenPointer}
use judica_vm.Nfts.{NftPtr}
use judica_vm.Sanitize.{
  sanitize, sanitize_token, sanitize_nft, sanitize_pair, sanitize_trade, sanitize_mint,
  sanitize_purchase, sanitize_listing, sanitize_send, sanitize_removal, Sanitized,
}

abbrev has_token : GameBoard → TokenPointer → Bool
has_token g p = contains_key p (coins g)

abbrev has_nft : GameBoard → NftPtr → Bool
has_nft g p = contains_key p g.nfts.nfts

-- What a move asks of the board: its tokens and NFTs are registered, its receiver is a user or an
-- NFT, and its scale is not 0.
abbrev pub is_valid : GameBoard → GameMove → Bool
is_valid g heartbeat = true
is_valid g (trade t) = has_token g t.pair.asset_a && has_token g t.pair.asset_b
is_valid g (mint_power_plant m) = not (m.scale == 0)
is_valid g (super_mint_power_plant m) = not (m.scale == 0)
is_valid g (purchase_nft p) = has_nft g p.nft_id && has_token g p.currency
is_valid g (list_nft_for_sale l) = has_nft g l.nft_id && has_token g l.currency
is_valid g (send_tokens s) = (contains_key s.to g.users || has_nft g s.to) && has_token g s.currency
is_valid g (remove_tokens r) = has_nft g r.nft_id && has_token g r.currency
is_valid g (chat s) = true

abbrev pub is_ok : {A : Type 0} → Sanitized A → Bool
is_ok (ok a) = true
is_ok (err e) = false

-- A mint passes exactly when its scale is not 0, a heartbeat and a chat always, and any other move
-- exactly when the tokens and NFTs that it points to exist on the board, and the receiver of coins is
-- a user or an NFT of it. What passes is the move itself.
pub sanitize_lem :
    (g : GameBoard) (mv : GameMove)
    → (is_ok (sanitize g mv) ≡ is_valid g mv) × (is_valid g mv ≡ true → sanitize g mv ≡ ok mv)
unfolding sanitize sanitize_token sanitize_nft sanitize_pair sanitize_trade sanitize_mint
    sanitize_purchase sanitize_listing sanitize_send sanitize_removal
sanitize_lem g heartbeat = (refl, λ v. refl)
sanitize_lem g (trade t) = (ground arith, λ v. ground arith)
sanitize_lem g (mint_power_plant m) = (ground arith, λ v. ground arith)
sanitize_lem g (super_mint_power_plant m) = (ground arith, λ v. ground arith)
sanitize_lem g (purchase_nft p) = (ground arith, λ v. ground arith)
sanitize_lem g (list_nft_for_sale l) = (ground arith, λ v. ground arith)
sanitize_lem g (send_tokens s) = (ground arith, λ v. ground arith)
sanitize_lem g (remove_tokens r) = (ground arith, λ v. ground arith)
sanitize_lem g (chat s) = (refl, λ v. refl)
