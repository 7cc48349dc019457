-- ===== src/Schedule.antt =====
-- The scheduling half of common/mine-with-friends-board/src/callbacks.rs, and the coin lockup of
-- nfts/instances/lockup.rs.
use judica_vm.Base.{ℕ, Option, none, some, List, [], ◌∷◌, ◌++◌, ltb, if◌then◌else◌}
use judica_vm.Base.Exec.{pure, gets, modify, ◌>>=◌, ◌>>◌}
use judica_vm.Base.Order.{nat_ord}
use judica_vm.Base.Map.{BTreeMap, lookup, insert}
use judica_vm.Entity.{EntityId}
use judica_vm.Tokens.{TokenPointer, Price}
use judica_vm.Nfts.{NftPtr, BaseNft, max_count, add_nft}
use judica_vm.Board.{
  GameBoard, Game, Callback, power_plant_event, asic_producer, steel_smelter, silicon_refinery,
  concrete_miller, coin_lockup, CoinLockup, alloc, balance_of, nft_at,
}
use judica_vm.Market.{transfer_on}

-- `Callback::time`
unfoldable pub time : Callback → ℕ
time (power_plant_event e) = e.time
time (asic_producer p) = p.elapsed_time
time (steel_smelter p) = p.elapsed_time
time (silicon_refinery p) = p.elapsed_time
time (concrete_miller p) = p.elapsed_time
time (coin_lockup l) = l.time_when_free

unfoldable pub or_empty : Option (List Callback) → List Callback
or_empty none = []
or_empty (some cbs) = cbs

-- `entry(cb.time()).or_default()`, and a push.
unfoldable pub push_callback : Callback → BTreeMap ℕ (List Callback) → BTreeMap ℕ (List Callback)
unfolding time or_empty
push_callback cb m = insert (time cb) (or_empty (lookup (time cb) m) ++ cb ∷ []) m

unfoldable pub put_callback : Callback → GameBoard → GameBoard
unfolding push_callback
put_callback cb g = record g {
  callbacks = record { callbacks = push_callback cb g.callbacks.callbacks };
}

-- `CallbackRegistry::schedule`
unfoldable pub schedule : Callback → Game Unit
unfolding put_callback modify
schedule cb = modify (put_callback cb)

unfoldable pub put_nft : BaseNft → GameBoard → GameBoard
unfolding add_nft
put_nft nft g = record g { nfts = (add_nft nft g.nfts).1 }

-- `game.nfts.add(..)`
unfoldable pub add_nft_to : BaseNft → Game NftPtr
unfolding ◌>>=◌ put_nft
add_nft_to nft = do modify (put_nft nft); pure nft.nft_id

-- `CoinLockup::lockup`
unfoldable pub lockup : EntityId → EntityId → TokenPointer → Price → ℕ → Game Unit
unfolding ◌>>=◌ alloc add_nft_to schedule transfer_on
lockup sender owner asset amount time_when_free = do
  nft_id ← alloc
  id ← add_nft_to (record { owner = owner; nft_id = nft_id; transfer_count = max_count })
  schedule (coin_lockup (record { id = id; time_when_free = time_when_free; asset = asset }))
  transfer_on asset sender id amount
  pure tt

-- `CoinLockup::action`
unfoldable pub lockup_action : CoinLockup → Game Unit
unfolding ◌>>=◌ nft_at balance_of transfer_on
lockup_action l = do
  nft ← nft_at l.id
  now ← gets (λ g. g.elapsed_time)
  if ltb now l.time_when_free
      then pure tt
      else do balance ← balance_of l.asset l.id; transfer_on l.asset l.id nft.owner balance; pure tt
