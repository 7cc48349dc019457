-- ===== src/Producers.antt =====
-- The market bots of common/mine-with-friends-board/src/tokens/instances. Each mints its units,
-- opens its market with a tenth of them and then sells a hundredth of its holdings periodically.
pub mod Asics
pub mod Steel
pub mod Silicon
pub mod Concrete
unfoldable pub use Asics.{asic_start, asic_action}
unfoldable pub use Steel.{steel_start, steel_action}
unfoldable pub use Silicon.{silicon_start, silicon_action}
unfoldable pub use Concrete.{concrete_start, concrete_action}
