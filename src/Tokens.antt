-- ===== src/Tokens.antt =====
-- common/mine-with-friends-board/src/tokens/mod.rs: the basic token and the token registry, and
-- the parameter types of tokens/instances. `transaction` and `end_transaction` do nothing outside
-- of the crate's own tests, so a call of them is no step of the model.
pub mod Supply
use judica_vm.Base.{
  ℕ, Bool, true, false, Option, none, some, [], Outcome, done, panic, ◌>>=◌, add, sub, u128, ltb,
  if◌then◌else◌,
}
use judica_vm.Base.Order.{nat_ord}
use judica_vm.Base.Map.{BTreeMap, lookup, insert, get_or_zero}
use judica_vm.Base.Text.{Text}
use judica_vm.Entity.{EntityId, EntityIdAllocator, make}

-- `Price` of util.rs; `Currency` is a `TokenPointer`.
abbrev pub Price : Type 0
Price = ℕ

abbrev pub TokenPointer : Type 0
TokenPointer = EntityId

abbrev pub Currency : Type 0
Currency = TokenPointer

pub record TokenBase : Type 0 where
  pub balances : BTreeMap EntityId Price
  pub total : Price
  pub this : EntityId
  pub nickname : Option Text

-- `TokenBase::new_from_alloc`
unfoldable pub new_from_alloc : EntityIdAllocator → Text → Outcome (TokenBase × EntityIdAllocator)
new_from_alloc allocator name = do
  (this, allocator') ← make allocator
  done (record { balances = []; total = 0; this = this; nickname = some name }, allocator')

unfoldable pub balance_check : EntityId → TokenBase → ℕ
balance_check to t = get_or_zero (lookup to t.balances)

unfoldable pub total_coins : TokenBase → ℕ
total_coins t = t.total

unfoldable pub mint : EntityId → Price → TokenBase → Outcome TokenBase
unfolding add
mint to amount t = do
  amt ← add u128 (get_or_zero (lookup to t.balances)) amount
  total ← add u128 t.total amount
  done (record t { balances = insert to amt t.balances; total = total })

unfoldable pub burn : EntityId → Price → TokenBase → Outcome TokenBase
unfolding sub
burn to amount t = do
  amt ← sub (get_or_zero (lookup to t.balances)) amount
  total ← sub t.total amount
  done (record t { balances = insert to amt t.balances; total = total })

unfoldable pub transfer : EntityId → EntityId → Price → TokenBase → Outcome (Bool × TokenBase)
unfolding balance_check
transfer sender receiver amount t =
    if ltb (balance_check sender t) amount
    then done (false, t)
    else do burned ← burn sender amount t; minted ← mint receiver amount burned; done (true, minted)

-- tokens/instances/asics.rs
pub record HashBoardData : Type 0 where
  pub hash_per_watt : ℕ
  pub reliability : ℕ

-- tokens/instances/steel.rs
pub data SteelVariety : Type 0 where
  structural : SteelVariety

pub record Steel : Type 0 where
  pub variety : SteelVariety
  pub weight_in_kg : ℕ

-- tokens/instances/silicon.rs
pub record Silicon : Type 0 where
  pub weight_in_kg : ℕ

pub record TokenRegistry : Type 0 where
  pub tokens : BTreeMap EntityId TokenBase
  pub hashboards : BTreeMap TokenPointer HashBoardData
  pub steel : BTreeMap TokenPointer Steel
  pub silicon : BTreeMap TokenPointer Silicon

-- `TokenRegistry::new_token`
unfoldable pub new_token : TokenBase → TokenRegistry → TokenPointer × TokenRegistry
new_token new r = (new.this, record r { tokens = insert new.this new r.tokens })
