-- ===== src/Nfts.antt =====
-- The data of common/mine-with-friends-board/src/nfts: the basic NFT, power plants, sales and the
-- registries, with the operations that touch nothing else.
use judica_vm.Base.{ℕ, ◌+◌, none, some, Outcome, done, ◌>>=◌, mul, u64, ◌==◌, if◌then◌else◌}
use judica_vm.Base.Order.{nat_ord}
use judica_vm.Base.Map.{BTreeMap, lookup, insert}
use judica_vm.Entity.{EntityId}
use judica_vm.Tokens.{Currency, Price}

abbrev pub NftPtr : Type 0
NftPtr = EntityId

-- `Location` is a pair of `i64`s, which the game stores and never computes with: `negsuc n` is
-- -(n + 1).
pub data ℤ : Type 0 where
  pos : ℕ → ℤ
  negsuc : ℕ → ℤ

abbrev pub Location : Type 0
Location = ℤ × ℤ

pub data PlantType : Type 0 where
  solar hydro flare : PlantType

pub record PowerPlant : Type 0 where
  pub id : NftPtr
  pub plant_type : PlantType
  pub watts : ℕ
  pub coordinates : Location

-- `PowerPlant::new`: one unit of scale is 100 kW.
unfoldable pub new_power_plant : NftPtr → PlantType → Location → ℕ → Outcome PowerPlant
new_power_plant id plant_type coordinates scale = do
  watts ← mul u64 scale 100_000
  done (record { id = id; plant_type = plant_type; watts = watts; coordinates = coordinates })

pub record BaseNft : Type 0 where
  pub owner : EntityId
  pub nft_id : EntityId
  pub transfer_count : ℕ

-- `u128::max_value()`, the count of an NFT that cannot be transferred.
abbrev pub max_count : ℕ
max_count = 0xffff_ffff_ffff_ffff_ffff_ffff_ffff_ffff

-- `NFT::transfer`; the count stops below the maximum, so adding one never leaves the range.
unfoldable pub transfer_nft : EntityId → BaseNft → BaseNft
transfer_nft to n =
    if n.transfer_count == max_count
    then n
    else record n { owner = to; transfer_count = n.transfer_count + 1 }

pub record NftRegistry : Type 0 where
  pub nfts : BTreeMap NftPtr BaseNft
  pub power_plants : BTreeMap NftPtr PowerPlant

-- `NFTRegistry::add`: an NFT that is there already stays.
unfoldable pub add_nft : BaseNft → NftRegistry → NftPtr × NftRegistry
add_nft nft r = elim (lookup nft.nft_id r.nfts) [
  | none ↦ (nft.nft_id, record r { nfts = insert nft.nft_id nft r.nfts })
  | some _ ↦ (nft.nft_id, r)
]

-- nfts/sale.rs
pub record NftSale : Type 0 where
  pub price : Price
  pub currency : Currency
  pub seller : EntityId
  pub transfer_count : ℕ

pub record NftSaleRegistry : Type 0 where
  pub sales : BTreeMap NftPtr NftSale
