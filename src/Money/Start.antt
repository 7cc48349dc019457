-- ===== src/Money/Start.antt =====
-- The set-up of a game keeps every invariant of the coins that the making of coins keeps too, and
-- the first board's coins are consistent.
use judica_vm.Base.{ℕ, ◌+◌, ◌≤◌, ◌≡◌, refl, arith, some, List, [], ◌∷◌, Outcome, done, panic}
use judica_vm.Base.Exec.{
  Preserves, Preserves-modify, Preserves-pure, Preserves-bind, Preserves-lift, Preserves-gets,
  After, preserves_rules, ◌>>=◌, modify,
}
use judica_vm.Base.Map.{BTreeMap, lookup, insert}
use judica_vm.Base.Order.{nat_ord}
use judica_vm.Base.Text.{Text, ascii}
use judica_vm.Entity.{EntityId, make, new_allocator}
use judica_vm.Tokens.{TokenBase, TokenPointer, new_token, new_from_alloc}
use judica_vm.Nfts.{Location, PlantType, new_power_plant}
use judica_vm.Board.{
  GameBoard, alloc, Producer, Callback, power_plant_event, steel_smelter, silicon_refinery,
  concrete_miller,
}
use judica_vm.Setup.{
  GameSetup, put_user, add_player, set_finish_time, setup_game, make_market, make_markets,
  fund_root, schedule_asics, schedule_bot, schedule_bots, schedule_events, place_player, base_nft,
  place_players, post_init, new_producer,
}
use judica_vm.NewGame.{new, blank_board, board_of, registry, empty_registry, add_token}
use judica_vm.Money.{CoinPredicate, Holds, IsMintInvariant}
use judica_vm.Money.Supply.{IsConsistent, IsConsistent-IsMintInvariant, consistent-insert}
use judica_vm.Tokens.Supply.{IsBalanced}
use judica_vm.Money.Trading.{ensure-Preserves}
use judica_vm.Money.Moves.{schedule-Preserves, add_nft_to-Preserves, insert_plant-Preserves}

module _ {P : CoinPredicate} (inv : IsMintInvariant P) where
  put_user-Preserves :
      (player : Text) (id : EntityId) → Preserves (Holds P) (modify (put_user player id))
  unfolding put_user
  put_user-Preserves player id = Preserves-modify (put_user player id) (λ g h. h)

  add_player-Preserves : (n : ℕ) (player : Text) → Preserves (Holds P) (add_player n player)
  unfolding add_player
  add_player-Preserves n player = Preserves-bind alloc _ inv.base.allocates λ id.
      Preserves-bind _ _ (put_user-Preserves player id) λ _.
        Preserves-bind _ _ (Preserves-gets (λ g. g.real_sats_token_id)) λ sats.
          Preserves-bind _ _ (inv.mints sats id n) λ _.
            Preserves-bind _ _ (Preserves-gets (λ g. g.bitcoin_token_id)) λ btc. inv.mints btc id n

  set_finish_time-Preserves : (t : ℕ) → Preserves (Holds P) (modify (set_finish_time t))
  unfolding set_finish_time
  set_finish_time-Preserves t = Preserves-modify (set_finish_time t) (λ g h. h)

  setup_game-Preserves : (s : GameSetup) → Preserves (Holds P) (setup_game s)
  unfolding setup_game
  setup_game-Preserves s = search (preserves_rules, set_finish_time-Preserves, add_player-Preserves)

  make_market-Preserves : (id : TokenPointer) → Preserves (Holds P) (make_market id)
  unfolding make_market
  make_market-Preserves id = search (preserves_rules, ensure-Preserves inv.base)

  make_markets-Preserves : Preserves (Holds P) make_markets
  unfolding make_markets
  make_markets-Preserves = search (preserves_rules, make_market-Preserves) depth 20

  fund_root-Preserves : Preserves (Holds P) fund_root
  unfolding fund_root
  fund_root-Preserves = search (preserves_rules, inv.mints) depth 20

  schedule_asics-Preserves :
      (id : EntityId) (btc : TokenPointer) → Preserves (Holds P) (schedule_asics id btc)
  unfolding schedule_asics
  schedule_asics-Preserves id btc = search (preserves_rules, schedule-Preserves inv.base)

  schedule_bot-Preserves :
      (bot : Producer → Callback) (asset : GameBoard → TokenPointer) (n : ℕ) (btc : TokenPointer)
      → Preserves (Holds P) (schedule_bot bot asset n btc)
  unfolding schedule_bot
  schedule_bot-Preserves bot asset n btc = Preserves-bind alloc _ inv.base.allocates λ id.
      Preserves-bind _ _ (Preserves-gets asset)
        λ hash_asset. schedule-Preserves inv.base (bot (new_producer id btc hash_asset n))

  schedule_events-Preserves : Preserves (Holds P) schedule_events
  unfolding schedule_events schedule_bots
  schedule_events-Preserves = Preserves-bind alloc _ inv.base.allocates λ id.
      Preserves-bind _ _
        (schedule-Preserves inv.base (power_plant_event (record { time = 0; period = 11_003 })))
        λ _.
          Preserves-bind _ _ (Preserves-gets (λ g. g.bitcoin_token_id))
            λ btc. Preserves-bind _ _ (schedule_asics-Preserves id btc) λ _. bots btc
    where
      bots : (btc : TokenPointer) → Preserves (Holds P) (schedule_bots btc)
      bots btc =
          Preserves-bind _ _
            (schedule_bot-Preserves steel_smelter (λ g. g.steel_token_id) 5_003 btc)
            λ _.
              Preserves-bind _ _
                (schedule_bot-Preserves silicon_refinery (λ g. g.silicon_token_id) 25_013 btc)
                λ _. schedule_bot-Preserves concrete_miller (λ g. g.concrete_token_id) 14_009 btc

  base_nft-Preserves : (player : EntityId) → Preserves (Holds P) (base_nft player)
  unfolding base_nft
  base_nft-Preserves player = Preserves-bind alloc _ inv.base.allocates λ n.
      Preserves-bind _ _
        (add_nft_to-Preserves inv.base (record { owner = player; nft_id = n; transfer_count = 0 }))
        λ _. Preserves-pure tt

  place_player-Preserves :
      (player : EntityId) (l : Location) (t : PlantType)
      → Preserves (Holds P) (place_player player l t)
  unfolding place_player
  place_player-Preserves player l t = Preserves-bind alloc _ inv.base.allocates λ n.
      Preserves-bind _ _
        (add_nft_to-Preserves inv.base (record { owner = player; nft_id = n; transfer_count = 0 }))
        λ id. Preserves-bind _ _ (Preserves-lift (new_power_plant id t l 1)) λ plant.
          Preserves-bind _ _ (insert_plant-Preserves inv.base id plant) λ _.
            Preserves-bind _ _ (Preserves-gets (λ g. g.asic_token_id)) λ asic. inv.mints asic id 1

  place_players-Preserves :
      (ps : List EntityId) (ls : List (Location × PlantType))
      → Preserves (Holds P) (place_players ps ls)
  unfolding place_players
  place_players-Preserves [] ls = Preserves-pure tt
  place_players-Preserves (p ∷ ps) [] = search (preserves_rules, base_nft-Preserves)
  place_players-Preserves (p ∷ ps) ((l, t) ∷ ls) =
      Preserves-bind _ _ (place_player-Preserves p l t) λ _. place_players-Preserves ps ls

  post_init-Preserves : Preserves (Holds P) post_init
  unfolding post_init
  post_init-Preserves = Preserves-bind make_markets _ make_markets-Preserves λ _.
      Preserves-bind fund_root _ fund_root-Preserves λ _.
        Preserves-bind schedule_events _ schedule_events-Preserves
          λ _. search (preserves_rules, place_players-Preserves)

  pub start-Preserves : (s : GameSetup) → Preserves (Holds P) (setup_game s >>= λ _. post_init)
  start-Preserves s = Preserves-bind _ _ (setup_game-Preserves s) λ _. post_init-Preserves

-- What holds of the result, if there is one.
abbrev pub ResultIs : (GameBoard → Type 0) → Outcome GameBoard → Type 0
ResultIs P (done g) = P g
ResultIs P panic = Unit

board_of_lem :
    (P : GameBoard → Type 0) (o : Outcome (Unit {0} × GameBoard))
    → After P o
    → ResultIs P (board_of o)
unfolding board_of
board_of_lem P (done (_, g)) h = h
board_of_lem P panic h = tt

-- A token without coins and with an id that was given out.
abbrev IsFresh : ℕ → TokenBase → Type 0
IsFresh a t = IsBalanced t × (t.this ≤ a)

add :
    (a : ℕ) (t : TokenBase) (m : BTreeMap EntityId TokenBase)
    → IsFresh a t
    → IsConsistent m a
    → IsConsistent (insert t.this t m) a
add a t m (b, le) h = consistent-insert t.this a t m h b le

absurd : (j : ℕ) (v : TokenBase) {A : Type 0} → lookup j [] ≡ some v → A
unfolding lookup
absurd j v e = ground arith

blank_IsConsistent :
    (btc real_sats concrete asic steel silicon : TokenBase) (root a : ℕ)
    → IsFresh a btc
    → IsFresh a real_sats
    → IsFresh a concrete
    → IsFresh a asic
    → IsFresh a steel
    → IsFresh a silicon
    → Holds IsConsistent (blank_board btc real_sats concrete asic steel silicon root a)
unfolding blank_board registry add_token empty_registry new_token
blank_IsConsistent btc real_sats concrete asic steel silicon root a b r c s t u = add a asic _ s (
    add a silicon _ u (
      add a steel _ t
        (add a concrete _ c (add a real_sats _ r (add a btc [] b λ j v e. absurd j v e)))))

-- A token of the first board.
abbrev named : ℕ → Text → TokenBase
named n name = record { balances = []; total = 0; this = new_allocator + n; nickname = some name }

abbrev first_board : GameBoard
first_board =
    blank_board (named 1 (ascii "Virtual Sats")) (named 2 (ascii "Real World Sats"))
      (named 3 (ascii "Concrete (1mt)")) (named 4 (ascii "ASIC Gen 1"))
      (named 5 (ascii "Steel (1mt)")) (named 6 (ascii "Silicon (10kg)")) (new_allocator + 7)
      (new_allocator + 7)

first_board-IsConsistent : Holds IsConsistent first_board
first_board-IsConsistent =
    blank_IsConsistent _ _ _ _ _ _ _ _ (refl, omega arith) (refl, omega arith) (refl, omega arith)
      (refl, omega arith) (refl, omega arith) (refl, omega arith)

pub new_lem : (s : GameSetup) → ResultIs (Holds IsConsistent) (new s)
unfolding new new_from_alloc make
new_lem s =
    board_of_lem (Holds IsConsistent) _
      ((start-Preserves IsConsistent-IsMintInvariant s).holds first_board first_board-IsConsistent)
