-- ===== src/Money/Moves.antt =====
-- Every move of a player keeps every invariant of the coins that transfers, the allocator and new
-- markets keep.
use judica_vm.Base.{ℕ, true, false, Option, none, some, List, [], ◌∷◌, ◌++◌, Outcome, done, panic}
use judica_vm.Base.Exec.{
  Result, ok, err, Preserves, Preserves-if, Preserves-and_then, for_each, Preserves-for_each,
  Preserves-modify, Preserves-pure, Preserves-bind, Preserves-lift, After, preserves_rules, modify,
}
use judica_vm.Base.Map.{lookup}
use judica_vm.Base.Text.{Text, ascii}
use judica_vm.Base.Order.{nat_ord}
use judica_vm.Entity.{EntityId, to_hex}
use judica_vm.Tokens.{TokenPointer, Price, Currency}
use judica_vm.Nfts.{
  NftPtr, NftSale, BaseNft, PlantType, Location, PowerPlant, max_count, new_power_plant,
}
use judica_vm.Moves.{
  GameMove, heartbeat, trade, purchase_nft, list_nft_for_sale, send_tokens, remove_tokens, chat,
  mint_power_plant, super_mint_power_plant, Trade, RemoveTokens, TradeError,
}
use judica_vm.Board.{GameBoard, Callback, nft_at, alloc, coin_lockup, balance_of}
use judica_vm.Schedule.{schedule, put_callback, put_nft, add_nft_to, lockup}
use judica_vm.Sales.{put_sale, drop_sale, hand_over, list_nft, buy_found, purchase}
use judica_vm.Plants.{reading, ship_hashrate}
use judica_vm.Minting
use judica_vm.Minting.{
  check_materials, put_plant, insert_plant, pay_material, build_plant, estimate_each, Estimate,
  estimate_materials_cost, expect, buy_material, super_mint, mint_for,
}
use judica_vm.Game.{
  set_nick, rename, log_chat, play_chat, play_removal, play_trade, or_reject, play_inner,
}
use judica_vm.Money.{CoinPredicate, Holds, IsInvariant}
use judica_vm.Money.Trading.{
  token_at-Preserves, balance_of-Preserves, do_buy_trade-Preserves, do_sell_trade-Preserves,
}

module _ {P : CoinPredicate} (inv : IsInvariant P) where
  pub reading-Preserves : {A : Type 0} (f : GameBoard → Outcome A) → Preserves (Holds P) (reading f)
  unfolding reading
  reading-Preserves f = search preserves_rules

  pub nft_at-Preserves : (id : NftPtr) → Preserves (Holds P) (nft_at id)
  unfolding nft_at
  nft_at-Preserves id = record { holds = λ g h. case g h (lookup id g.nfts.nfts) }
    where
      case :
          (g : GameBoard)
          → Holds P g
          → (o : Option BaseNft) → After (Holds P) (elim o [ none ↦ panic | some t ↦ done (t, g) ])
      case g h none = tt
      case g h (some t) = h

  put_callback-Preserves : (cb : Callback) → Preserves (Holds P) (modify (put_callback cb))
  unfolding put_callback
  put_callback-Preserves cb = Preserves-modify (put_callback cb) (λ g h. h)

  pub schedule-Preserves : (cb : Callback) → Preserves (Holds P) (schedule cb)
  unfolding schedule
  schedule-Preserves cb = put_callback-Preserves cb

  put_nft-Preserves : (n : BaseNft) → Preserves (Holds P) (modify (put_nft n))
  unfolding put_nft
  put_nft-Preserves n = Preserves-modify (put_nft n) (λ g h. h)

  pub add_nft_to-Preserves : (n : BaseNft) → Preserves (Holds P) (add_nft_to n)
  unfolding add_nft_to
  add_nft_to-Preserves n = search (preserves_rules, put_nft-Preserves)

  pub lockup-Preserves :
      (s o : EntityId) (asset : TokenPointer) (a : Price) (t : ℕ)
      → Preserves (Holds P) (lockup s o asset a t)
  unfolding lockup
  lockup-Preserves s o asset a t = Preserves-bind alloc _ inv.allocates λ n.
      Preserves-bind _ _
        (add_nft_to-Preserves (record { owner = o; nft_id = n; transfer_count = max_count }))
        λ id.
          Preserves-bind _ _
            (schedule-Preserves
              (coin_lockup (record { id = id; time_when_free = t; asset = asset })))
            λ _. Preserves-bind _ _ (inv.transfers asset s id a) λ _. Preserves-pure tt

  put_sale-Preserves : (n : NftPtr) (s : NftSale) → Preserves (Holds P) (modify (put_sale n s))
  unfolding put_sale
  put_sale-Preserves n s = Preserves-modify (put_sale n s) (λ g h. h)

  drop_sale-Preserves : (n : NftPtr) → Preserves (Holds P) (modify (drop_sale n))
  unfolding drop_sale
  drop_sale-Preserves n = Preserves-modify (drop_sale n) (λ g h. h)

  hand_over-Preserves :
      (n : NftPtr) (to : EntityId) (nft : BaseNft)
      → Preserves (Holds P) (modify (hand_over n to nft))
  unfolding hand_over
  hand_over-Preserves n to nft = Preserves-modify (hand_over n to nft) (λ g h. h)

  list_nft-Preserves :
      (s : EntityId) (n : NftPtr) (p : Price) (c : Currency)
      → Preserves (Holds P) (list_nft s n p c)
  unfolding list_nft
  list_nft-Preserves s n p c = search (preserves_rules, nft_at-Preserves, put_sale-Preserves)

  buy_found-Preserves :
      (s : EntityId) (n : NftPtr) (p : Price) (c : Currency) (o : Option NftSale)
      → Preserves (Holds P) (buy_found s n p c o)
  unfolding buy_found
  buy_found-Preserves s n p c none = Preserves-pure tt
  buy_found-Preserves s n p c (some sale) =
      search
        (preserves_rules, nft_at-Preserves, inv.transfers, hand_over-Preserves, drop_sale-Preserves)
        depth 12

  purchase-Preserves :
      (s : EntityId) (n : NftPtr) (p : Price) (c : Currency)
      → Preserves (Holds P) (purchase s n p c)
  unfolding purchase
  purchase-Preserves s n p c = search (preserves_rules, buy_found-Preserves)

  check_materials-Preserves :
      (s : EntityId) (bill : List (Currency × Price)) → Preserves (Holds P) (check_materials s bill)
  unfolding check_materials
  check_materials-Preserves s [] = Preserves-pure _
  check_materials-Preserves s ((c, p) ∷ rest) =
      Preserves-bind _ _ (balance_of-Preserves inv c s)
        λ held. Preserves-if _ _ _ (Preserves-pure _) (check_materials-Preserves s rest)

  pub insert_plant-Preserves :
      (n : NftPtr) (p : PowerPlant) → Preserves (Holds P) (insert_plant n p)
  unfolding insert_plant put_plant
  insert_plant-Preserves n p = Preserves-modify (put_plant n p) (λ g h. h)

  pay_material-Preserves :
      (s : EntityId) (n : NftPtr) (m : Currency × Price) → Preserves (Holds P) (pay_material s n m)
  unfolding pay_material
  pay_material-Preserves s n (c, p) = search (preserves_rules, inv.transfers)

  build_plant-Preserves :
      (bill : List (Currency × Price)) (scale : ℕ) (l : Location) (t : PlantType) (s : EntityId)
      → Preserves (Holds P) (build_plant bill scale l t s)
  unfolding build_plant
  build_plant-Preserves bill scale l t s = Preserves-bind alloc _ inv.allocates λ n.
      Preserves-bind _ _
        (add_nft_to-Preserves (record { owner = s; nft_id = n; transfer_count = 0 }))
        λ id. Preserves-bind _ _ (Preserves-lift (new_power_plant id t l scale)) λ plant.
          Preserves-bind _ _ (insert_plant-Preserves id plant) λ _.
            Preserves-bind _ _ (Preserves-for_each bill _ (pay_material-Preserves s id))
              λ _. Preserves-pure (ok tt)

  mint_power_plant-Preserves :
      (scale : ℕ) (l : Location) (t : PlantType) (s : EntityId)
      → Preserves (Holds P) (Minting.mint_power_plant scale l t s)
  unfolding Minting.mint_power_plant
  mint_power_plant-Preserves scale l t s =
      search (preserves_rules, reading-Preserves, check_materials-Preserves, build_plant-Preserves)
        depth 12

  estimate_each-Preserves :
      (btc : TokenPointer) (s : EntityId) (bill : List (Currency × Price))
      → Preserves (Holds P) (estimate_each btc s bill)
  unfolding estimate_each
  estimate_each-Preserves btc s [] = Preserves-pure _
  estimate_each-Preserves btc s ((c, p) ∷ rest) = Preserves-bind _ _ (token_at-Preserves inv c) λ t.
      Preserves-bind _ _
        (do_buy_trade-Preserves inv (record { asset_a = c; asset_b = btc }) p 0 none true s)
        λ r. Preserves-and_then r _ λ outcome.
          Preserves-bind _ _ (estimate_each-Preserves btc s rest)
            λ more. Preserves-and_then more _ λ prices. Preserves-pure _

  estimate_materials_cost-Preserves :
      (scale : ℕ) (l : Location) (t : PlantType) (s : EntityId)
      → Preserves (Holds P) (estimate_materials_cost scale l t s)
  unfolding estimate_materials_cost
  estimate_materials_cost-Preserves scale l t s =
      search (preserves_rules, reading-Preserves, estimate_each-Preserves) depth 12

  expect-Preserves : {A : Type 0} (r : Result TradeError A) → Preserves (Holds P) (expect r)
  unfolding expect
  expect-Preserves (ok a) = Preserves-pure tt
  expect-Preserves (err e) = Preserves-lift panic

  buy_material-Preserves :
      (btc : TokenPointer) (s : EntityId) (m : Currency × Price)
      → Preserves (Holds P) (buy_material btc s m)
  unfolding buy_material
  buy_material-Preserves btc s (c, p) =
      Preserves-bind _ _
        (do_buy_trade-Preserves inv (record { asset_a = c; asset_b = btc }) p 0 none false s)
        (λ r. expect-Preserves r)

  mint_for-Preserves :
      (scale : ℕ) (l : Location) (t : PlantType) (s : EntityId) (e : Estimate)
      → Preserves (Holds P) (mint_for scale l t s e)
  unfolding mint_for
  mint_for-Preserves scale l t s e =
      search (preserves_rules, funds_of, reading-Preserves, buy_all, mint_power_plant-Preserves)
        depth 14
    where
      buy_all :
          (btc : TokenPointer) (bill : List (Currency × Price))
          → Preserves (Holds P) (for_each bill (buy_material btc s))
      buy_all btc bill = Preserves-for_each bill _ (buy_material-Preserves btc s)

      funds_of : (btc : TokenPointer) → Preserves (Holds P) (balance_of btc s)
      funds_of btc = balance_of-Preserves inv btc s

  super_mint-Preserves :
      (scale : ℕ) (l : Location) (t : PlantType) (s : EntityId)
      → Preserves (Holds P) (super_mint scale l t s)
  unfolding super_mint
  super_mint-Preserves scale l t s =
      search (preserves_rules, estimate_materials_cost-Preserves, mint_for-Preserves)

  rename-Preserves :
      (from : EntityId) (s : Text) (o : Option Text) → Preserves (Holds P) (rename from s o)
  unfolding rename set_nick
  rename-Preserves from s none = Preserves-pure s
  rename-Preserves from s (some nick) =
      Preserves-bind _ _ (Preserves-modify (set_nick from nick) (λ g h. h))
        (λ _. Preserves-pure (to_hex from ++ ascii " is now known as " ++ nick))

  log_chat-Preserves :
      (from : EntityId) (s : Text) (n : ℕ) → Preserves (Holds P) (modify (log_chat from s n))
  unfolding log_chat
  log_chat-Preserves from s n = Preserves-modify (log_chat from s n) (λ g h. h)

  play_chat-Preserves : (from : EntityId) (s : Text) → Preserves (Holds P) (play_chat from s)
  unfolding play_chat
  play_chat-Preserves from s = search (preserves_rules, rename-Preserves, log_chat-Preserves)

  ship_hashrate-Preserves :
      (plant : PowerPlant) (miners : TokenPointer) (a : Price) (t : ℕ)
      → Preserves (Holds P) (ship_hashrate plant miners a t)
  unfolding ship_hashrate
  ship_hashrate-Preserves plant miners a t =
      search (preserves_rules, nft_at-Preserves, lockup-Preserves)

  play_removal-Preserves :
      (from : EntityId) (r : RemoveTokens) → Preserves (Holds P) (play_removal from r)
  unfolding play_removal
  play_removal-Preserves from r =
      search (preserves_rules, nft_at-Preserves, ship_hashrate-Preserves) depth 12

  play_trade-Preserves : (from : EntityId) (t : Trade) → Preserves (Holds P) (play_trade from t)
  unfolding play_trade
  play_trade-Preserves from t =
      Preserves-if t.sell _ _
        (do_sell_trade-Preserves inv t.pair t.amount_a t.amount_b t.cap false from)
        (do_buy_trade-Preserves inv t.pair t.amount_a t.amount_b t.cap false from)

  or_reject-Preserves : {A : Type 0} (r : Result TradeError A) → Preserves (Holds P) (or_reject r)
  unfolding or_reject
  or_reject-Preserves (ok a) = Preserves-pure _
  or_reject-Preserves (err e) = Preserves-pure _

  -- A move keeps every such invariant, whoever plays it and whatever comes of it.
  pub play_inner-Preserves :
      (mv : GameMove) (from : EntityId) → Preserves (Holds P) (play_inner mv from)
  unfolding play_inner
  play_inner-Preserves heartbeat from = Preserves-pure _
  play_inner-Preserves (trade t) from =
      search (preserves_rules, play_trade-Preserves, or_reject-Preserves)
  play_inner-Preserves (mint_power_plant m) from =
      search (preserves_rules, mint_power_plant-Preserves, or_reject-Preserves)
  play_inner-Preserves (super_mint_power_plant m) from =
      search (preserves_rules, super_mint-Preserves, or_reject-Preserves)
  play_inner-Preserves (purchase_nft p) from = search (preserves_rules, purchase-Preserves)
  play_inner-Preserves (list_nft_for_sale l) from = search (preserves_rules, list_nft-Preserves)
  play_inner-Preserves (send_tokens t) from = search (preserves_rules, inv.transfers)
  play_inner-Preserves (remove_tokens r) from = search (preserves_rules, play_removal-Preserves)
  play_inner-Preserves (chat s) from = search (preserves_rules, play_chat-Preserves)
