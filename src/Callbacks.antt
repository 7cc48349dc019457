-- ===== src/Callbacks.antt =====
-- `CallbackRegistry::run` of common/mine-with-friends-board/src/callbacks.rs.
pub mod Due
use judica_vm.Base.{ℕ, ◌+◌, List, [], ◌∷◌, Outcome, add, u64, leb, if◌then◌else◌}
use judica_vm.Base.Exec.{pure, lift, gets, modify, ◌>>=◌, ◌>>◌, for_each}
use judica_vm.Base.Map.{BTreeMap}
use judica_vm.Board.{
  GameBoard, Game, Callback, power_plant_event, asic_producer, steel_smelter, silicon_refinery,
  concrete_miller, coin_lockup,
}
use judica_vm.Schedule.{lockup_action}
use judica_vm.Producers.{asic_action, steel_action, silicon_action, concrete_action}
use judica_vm.Payout.{power_plant_action}

-- `Callback::action`
unfoldable pub action : Callback → Game Unit
action (power_plant_event e) = power_plant_action e
action (asic_producer p) = asic_action p
action (steel_smelter p) = steel_action p
action (silicon_refinery p) = silicon_action p
action (concrete_miller p) = concrete_action p
action (coin_lockup l) = lockup_action l

-- `split_off(&key)`: what stays below the key, and what is at it or above.
unfoldable pub below : ℕ → BTreeMap ℕ (List Callback) → BTreeMap ℕ (List Callback)
below key [] = []
below key ((k, v) ∷ m) = if leb key k then [] else (k, v) ∷ below key m

unfoldable pub at_least : ℕ → BTreeMap ℕ (List Callback) → BTreeMap ℕ (List Callback)
at_least key [] = []
at_least key ((k, v) ∷ m) = if leb key k then (k, v) ∷ m else at_least key m

unfoldable pub keep_callbacks : ℕ → GameBoard → GameBoard
unfolding at_least
keep_callbacks key g = record g {
  callbacks = record { callbacks = at_least key g.callbacks.callbacks };
}

unfoldable pub run_batch : ℕ × List Callback → Game Unit
unfolding for_each action
run_batch (_, v) = for_each v action

-- `CallbackRegistry::run`
unfoldable pub run : Game Unit
unfolding ◌>>=◌ below keep_callbacks for_each run_batch add
run = do
  now ← gets (λ g. g.elapsed_time)
  key ← lift (add u64 now 1)
  to_do ← gets (λ g. below key g.callbacks.callbacks)
  modify (keep_callbacks key)
  for_each to_do run_batch
