-- ===== src/Money.antt =====
-- Invariants of the coins: what has to be shown of transfers, of the allocator and of new markets
-- for every operation of the board to keep one.
pub mod Trading
pub mod Moves
pub mod Events
pub mod Play
pub mod Rules
pub mod Supply
pub mod Start
pub mod Reachable
use judica_vm.Base.{ℕ}
use judica_vm.Base.Exec.{Preserves}
use judica_vm.Base.Map.{BTreeMap}
use judica_vm.Entity.{EntityId, EntityIdAllocator}
use judica_vm.Tokens.{TokenBase, TokenPointer, Price}
use judica_vm.TradingPair.{TradingPairId}
use judica_vm.Board.{GameBoard, coins, alloc}
use judica_vm.Market.{transfer_on, mint_on, create_market}

abbrev pub CoinPredicate : Type 1
CoinPredicate = BTreeMap EntityId TokenBase → EntityIdAllocator → Type 0

-- A statement about the coins and the allocator, of a board.
abbrev pub Holds : CoinPredicate → GameBoard → Type 0
Holds P g = P (coins g) g.alloc

-- Kept by everything but the making of coins.
pub record IsInvariant (P : CoinPredicate) : Type 0 where
  pub transfers :
      (id : TokenPointer) (sender receiver : EntityId) (amount : Price)
      → Preserves (Holds P) (transfer_on id sender receiver amount)
  pub allocates : Preserves (Holds P) alloc
  pub creates : (pair : TradingPairId) → Preserves (Holds P) (create_market pair)

-- Kept by the making of coins too.
pub record IsMintInvariant (P : CoinPredicate) : Type 0 where
  pub base : IsInvariant P
  pub mints :
      (id : TokenPointer) (to : EntityId) (amount : Price)
      → Preserves (Holds P) (mint_on id to amount)
