-- ===== src/NewGame.antt =====
-- `GameBoard::new` of common/mine-with-friends-board/src/game/mod.rs.
use judica_vm.Base.{ℕ, List, [], ◌∷◌, Outcome, done, panic, ◌>>=◌}
use judica_vm.Base.Exec.{◌>>=◌ as and_do}
use judica_vm.Base.Order.{nat_ord}
use judica_vm.Base.Map.{insert}
use judica_vm.Base.Text.{ascii}
use judica_vm.Entity.{EntityId, EntityIdAllocator, new_allocator, make}
use judica_vm.Tokens.{
  TokenBase, TokenPointer, TokenRegistry, structural, Currency, Price, new_from_alloc, new_token,
}
use judica_vm.Nfts.{PlantType, solar, hydro, flare}
use judica_vm.Board.{GameBoard}
use judica_vm.Setup.{GameSetup, setup_game, post_init}

unfoldable pub empty_registry : TokenRegistry
empty_registry = record { tokens = []; hashboards = []; steel = []; silicon = [] }

unfoldable pub add_token : TokenBase → TokenRegistry → TokenRegistry
unfolding new_token
add_token t r = (new_token t r).1

-- The registry's tokens, and the parameters of those that have any.
unfoldable pub registry :
    TokenBase → TokenBase → TokenBase → TokenBase → TokenBase → TokenBase → TokenRegistry
unfolding empty_registry add_token
registry btc real_sats concrete steel silicon asic =
    let r = add_token asic (
      add_token silicon (
        add_token steel
          (add_token concrete (add_token real_sats (add_token btc empty_registry))))) in
    record r {
      hashboards =
          insert asic.this (record { hash_per_watt = 300_000_000_000; reliability = 100 }) [];
      steel = insert steel.this (record { variety = structural; weight_in_kg = 1000 }) [];
      silicon = insert silicon.this (record { weight_in_kg = 10 }) [];
    }

unfoldable pub bill :
    TokenPointer → TokenPointer → TokenPointer → ℕ → ℕ → ℕ → List (Currency × Price)
bill steel silicon concrete a b c = (steel, a) ∷ (silicon, b) ∷ (concrete, c) ∷ []

unfoldable pub plant_prices :
    TokenPointer → TokenPointer → TokenPointer → List (PlantType × List (Currency × Price))
unfolding bill
plant_prices steel silicon concrete =
    (solar, bill steel silicon concrete 1 8 1)
    ∷ (hydro, bill steel silicon concrete 3 1 6)
    ∷ (flare, bill steel silicon concrete 4 2 4)
    ∷ []

-- The board before the players and the markets are added.
unfoldable pub blank_board :
    TokenBase
    → TokenBase
    → TokenBase
    → TokenBase
    → TokenBase
    → TokenBase
    → EntityId
    → EntityIdAllocator
    → GameBoard
unfolding registry plant_prices
blank_board btc real_sats concrete asic steel silicon root_user alloc = record {
  tokens = registry btc real_sats concrete steel silicon asic;
  markets = [];
  turn_count = 0;
  alloc = alloc;
  users = [];
  users_by_key = [];
  nfts = record { nfts = []; power_plants = [] };
  nft_sales = record { sales = [] };
  player_move_sequence = [];
  bitcoin_token_id = btc.this;
  real_sats_token_id = real_sats.this;
  steel_token_id = steel.this;
  silicon_token_id = silicon.this;
  concrete_token_id = concrete.this;
  asic_token_id = asic.this;
  root_user = root_user;
  callbacks = record { callbacks = [] };
  elapsed_time = 0;
  finish_time = 0;
  mining_subsidy = 5_000_000_000;
  ticks = [];
  chat = [];
  nicks = [];
  chat_counter = 0;
  event_log = [];
  event_log_counter = 0;
  plant_prices = plant_prices steel.this silicon.this concrete.this;
}

unfoldable pub board_of : Outcome (Unit {0} × GameBoard) → Outcome GameBoard
board_of (done (_, g)) = done g
board_of panic = panic

-- `GameBoard::new`
unfoldable pub new : GameSetup → Outcome GameBoard
unfolding new_from_alloc make blank_board setup_game post_init board_of and_do
new setup = do
  (btc, a) ← new_from_alloc new_allocator (ascii "Virtual Sats")
  (real_sats, b) ← new_from_alloc a (ascii "Real World Sats")
  (concrete, c) ← new_from_alloc b (ascii "Concrete (1mt)")
  (asic, d) ← new_from_alloc c (ascii "ASIC Gen 1")
  (steel, e) ← new_from_alloc d (ascii "Steel (1mt)")
  (silicon, f) ← new_from_alloc e (ascii "Silicon (10kg)")
  (root_user, alloc) ← make f
  board_of (
      and_do (setup_game setup) (λ _. post_init)
        (blank_board btc real_sats concrete asic steel silicon root_user alloc))
