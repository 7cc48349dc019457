-- ===== src/Sales.antt =====
-- `NFTSaleRegistry` of common/mine-with-friends-board/src/nfts/sale.rs.
pub mod Purchase
use judica_vm.Base.{
  ℕ, Bool, true, false, not, ◌&&◌, Option, none, some, Outcome, ltb, ◌==◌, if◌then◌else◌,
}
use judica_vm.Base.Exec.{pure, gets, modify, ◌>>=◌, ◌>>◌}
use judica_vm.Base.Order.{nat_ord}
use judica_vm.Base.Map.{lookup, insert, remove}
use judica_vm.Entity.{EntityId}
use judica_vm.Tokens.{Currency, Price}
use judica_vm.Nfts.{NftPtr, NftSale, BaseNft, transfer_nft}
use judica_vm.Board.{GameBoard, Game, nft_at}
use judica_vm.Market.{transfer_on}

unfoldable pub put_sale : NftPtr → NftSale → GameBoard → GameBoard
put_sale asset s g = record g { nft_sales = record { sales = insert asset s g.nft_sales.sales } }

unfoldable pub drop_sale : NftPtr → GameBoard → GameBoard
drop_sale asset g = record g { nft_sales = record { sales = remove asset g.nft_sales.sales } }

unfoldable pub cancel_found : NftPtr → EntityId → Option NftSale → Game Unit
unfolding ◌>>=◌ nft_at drop_sale
cancel_found asset user none = pure tt
cancel_found asset user (some sale) = do
  nft ← nft_at asset
  if sale.seller == nft.owner && sale.seller == user then modify (drop_sale asset) else pure tt

-- `cancel_sale`
unfoldable pub cancel_sale : NftPtr → EntityId → Game Unit
unfolding ◌>>=◌ cancel_found
cancel_sale asset user = do
  found ← gets (λ g. lookup asset g.nft_sales.sales)
  cancel_found asset user found

-- `list_nft`
unfoldable pub list_nft : EntityId → NftPtr → Price → Currency → Game Unit
unfolding ◌>>=◌ nft_at put_sale
list_nft sender asset price currency = do
  nft ← nft_at asset
  if not (sender == nft.owner)
      then pure tt
      else modify (
          put_sale asset (record {
            price = price;
            currency = currency;
            seller = nft.owner;
            transfer_count = nft.transfer_count;
          }))

-- The checks of `purchase` before any coin moves.
unfoldable pub sale_stands : NftSale → BaseNft → Price → Currency → Bool
sale_stands sale nft limit_price limit_currency =
    sale.seller == nft.owner
    && sale.transfer_count == nft.transfer_count
    && limit_currency == sale.currency
    && not (ltb limit_price sale.price)

unfoldable pub hand_over : NftPtr → EntityId → BaseNft → GameBoard → GameBoard
unfolding transfer_nft
hand_over asset to nft g = record g {
  nfts = record g.nfts { nfts = insert asset (transfer_nft to nft) g.nfts.nfts };
}

unfoldable pub buy_found : EntityId → NftPtr → Price → Currency → Option NftSale → Game Unit
unfolding ◌>>=◌ nft_at sale_stands transfer_on hand_over drop_sale
buy_found sender asset limit_price limit_currency none = pure tt
buy_found sender asset limit_price limit_currency (some sale) = do
  nft ← nft_at asset
  if not (sale_stands sale nft limit_price limit_currency) then pure tt else do
    paid ← transfer_on sale.currency sender nft.owner sale.price
    if not paid then pure tt else do modify (hand_over asset sender nft); modify (drop_sale asset)

-- `purchase`
unfoldable pub purchase : EntityId → NftPtr → Price → Currency → Game Unit
unfolding ◌>>=◌ buy_found
purchase sender asset limit_price limit_currency = do
  found ← gets (λ g. lookup asset g.nft_sales.sales)
  buy_found sender asset limit_price limit_currency found
