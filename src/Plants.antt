-- ===== src/Plants.antt =====
-- Power plants: common/mine-with-friends-board/src/nfts/instances/powerplant.
use Prim.Native.Nat.{compare, Ordering}
use judica_vm.Base.{
  ℕ, ◌-◌, min, Bool, true, false, Option, none, some, List, [], ◌∷◌, Outcome, done,
  ◌>>=◌ as and_also, unwrap, add, mul, u128, ◌==◌, if◌then◌else◌,
}
use judica_vm.Base.Exec.{pure, lift, gets, ◌>>=◌, ◌>>◌}
use judica_vm.Base.Sort.{sort}
use judica_vm.Base.Order.{nat_ord, then_cmp}
use judica_vm.Base.Map.{BTreeMap, lookup}
use judica_vm.Entity.{EntityId}
use judica_vm.Tokens.{TokenBase, TokenPointer, Currency, Price, HashBoardData, balance_check}
use judica_vm.Nfts.{PlantType, solar, hydro, flare, PowerPlant}
use judica_vm.Board.{GameBoard, Game, coins, nft_at}
use judica_vm.Market.{transfer_on}
use judica_vm.Schedule.{lockup}

-- A `&self` method of the board.
unfoldable pub reading : {A : Type 0} → (GameBoard → Outcome A) → Game A
unfolding ◌>>=◌
reading f = do r ← gets f; lift r

unfoldable pub same_plant : PlantType → PlantType → Bool
same_plant solar solar = true
same_plant hydro hydro = true
same_plant flare flare = true
same_plant _ _ = false

unfoldable pub prices_of :
    PlantType → List (PlantType × List (Currency × Price)) → Option (List (Currency × Price))
unfolding same_plant
prices_of t [] = none
prices_of t ((u, prices) ∷ rest) = if same_plant t u then some prices else prices_of t rest

unfoldable pub scaled : ℕ → List (Currency × Price) → Outcome (List (Currency × Price))
unfolding mul
scaled scale [] = done []
scaled scale ((cur, qty) ∷ rest) =
    and_also (mul u128 qty scale)
      (λ total. and_also (scaled scale rest) (λ more. done ((cur, total) ∷ more)))

-- `PlantType::raw_materials_bill`
unfoldable pub raw_materials_bill : PlantType → ℕ → GameBoard → Outcome (List (Currency × Price))
unfolding prices_of scaled
raw_materials_bill t scale g = and_also (unwrap (prices_of t g.plant_prices)) (scaled scale)

-- One `(hash_per_watt, count)` for each kind of hash board.
unfoldable pub boards :
    BTreeMap TokenPointer HashBoardData
    → EntityId
    → BTreeMap EntityId TokenBase
    → Outcome (List (ℕ × ℕ))
unfolding balance_check
boards [] id tokens = done []
boards ((token, hbd) ∷ rest) id tokens = and_also (unwrap (lookup token tokens)) (λ t.
    and_also (boards rest id tokens)
      (λ more. done ((hbd.hash_per_watt, balance_check id t) ∷ more)))

-- The derived order of a pair, from the end that `pop` takes.
abbrev pub before : ℕ × ℕ → ℕ × ℕ → Bool
before p q = elim (then_cmp (compare p.0 q.0) (compare p.1 q.1)) [ Ordering.gt ↦ true | _ ↦ false ]

-- The `while let` loop: the best boards take the watts first.
unfoldable pub run_boards : List (ℕ × ℕ) → ℕ → ℕ → Outcome ℕ
unfolding add mul
run_boards [] watts hashrate = done hashrate
run_boards ((hpw, units) ∷ rest) watts hashrate =
    let available = min units watts in
    and_also (mul u128 available hpw) (λ gained. and_also (add u128 hashrate gained) (λ total.
      if watts - available == 0 then done total else run_boards rest (watts - available) total))

-- `PowerPlant::compute_hashrate`
unfoldable pub compute_hashrate : PowerPlant → GameBoard → Outcome ℕ
unfolding boards sort run_boards
compute_hashrate plant g =
    and_also (boards g.tokens.hashboards plant.id (coins g))
      (λ hash. run_boards (sort before hash) plant.watts 0)

-- `colocate_hashrate`
unfoldable pub colocate_hashrate : PowerPlant → TokenPointer → Price → Game Unit
unfolding ◌>>=◌ nft_at transfer_on
colocate_hashrate plant miners amount = do
  nft ← nft_at plant.id
  transfer_on miners nft.owner plant.id amount
  pure tt

-- `ship_hashrate`
unfoldable pub ship_hashrate : PowerPlant → TokenPointer → Price → ℕ → Game Unit
unfolding ◌>>=◌ nft_at lockup
ship_hashrate plant miners amount shipping_time = do
  nft ← nft_at plant.id
  lockup plant.id nft.owner miners amount shipping_time
