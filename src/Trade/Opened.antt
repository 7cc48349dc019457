-- ===== src/Trade/Opened.antt =====
-- tokens/token_swap.rs: the market that `ensure` finds or opens.
use judica_vm.Base.{◌≡◌, refl, ap, subst, ◌∙◌, Option, none, some, done}
use judica_vm.Base.Exec.{pure, gets, modify, ◌>>=◌, ◌>>◌}
use judica_vm.Base.Map.{lookup, insert, lookup-insert_self}
use judica_vm.Entity.{EntityId}
use judica_vm.Tokens.{TokenBase, new_token}
use judica_vm.TradingPair.{TradingPairId, trading_pair_ord, normalize}
use judica_vm.Board.{GameBoard, MarketPair, token_at, alloc}
use judica_vm.Market.{
  ensure, occupied_or_vacant, create_market, allocate_market, open_market, name_of, shares_token,
}
use judica_vm.Trade.Moved.{IsListed, bind_inv}

opened-IsListed :
    (pair : TradingPairId) (mkt : MarketPair) (shares : TokenBase) (lp id : EntityId)
    (g : GameBoard) {g' : GameBoard}
    → (modify (open_market pair shares id)
          >> pure (record { pair = pair; id = id; lp = lp; reserve_a = 0; reserve_b = 0 }))
        g
      ≡ done (mkt, g')
    → (new_token shares g.tokens).0 ≡ lp
    → IsListed pair mkt g'
unfolding modify pure ◌>>=◌ open_market
opened-IsListed pair mkt shares lp id g {g'} h made =
    let it : MarketPair = record { pair = pair; id = id; lp = lp; reserve_a = 0; reserve_b = 0 } in
    let is_mkt : it ≡ mkt = cc in
    let board : open_market pair shares id g ≡ g' = cc in
    let there : IsListed pair it (open_market pair shares id g) = (
      ap
            (λ x. lookup pair (
              insert pair (record { pair = pair; id = id; lp = x; reserve_a = 0; reserve_b = 0 })
                g.markets))
            made
          ∙ lookup-insert_self pair it g.markets,
      refl,
    ) in
    subst (λ b. IsListed pair mkt b) board
      (subst (λ x. IsListed pair x (open_market pair shares id g)) is_mkt there)

create_market-IsListed :
    (pair : TradingPairId) (mkt : MarketPair) (g : GameBoard) {g' : GameBoard}
    → create_market pair g ≡ done (mkt, g')
    → IsListed pair mkt g'
unfolding create_market allocate_market shares_token new_token
create_market-IsListed pair mkt g {g'} h =
    let (a, g1, e1, r1) = bind_inv (token_at pair.asset_a) _ g h in
    let (b, g2, e2, r2) = bind_inv (token_at pair.asset_b) _ g1 r1 in
    let (base_id, g3, e3, r3) = bind_inv alloc _ g2 r2 in
    let (mkt_id, g4, e4, r4) = bind_inv alloc _ g3 r3 in
    opened-IsListed pair mkt
      (shares_token base_id (name_of pair.asset_a a) (name_of pair.asset_b b)) base_id mkt_id g4 r4
      refl

-- The market that `ensure` gives stands under the pair, if it was there under its own.
pub ensure-IsListed :
    (id : TradingPairId) (mkt : MarketPair) (g : GameBoard) {g' : GameBoard}
    → ((m : MarketPair) → lookup (normalize id) g.markets ≡ some m → m.pair ≡ normalize id)
    → ensure id g ≡ done (mkt, g')
    → IsListed (normalize id) mkt g'
unfolding ensure gets pure modify allocate_market open_market create_market
ensure-IsListed id mkt g {g'} own h =
    let (found, g1, e1, r1) =
      bind_inv (gets (λ b. lookup (normalize id) b.markets)) (occupied_or_vacant (normalize id)) g
        h in
    let same1 : g ≡ g1 = cc in
    let is_found : lookup (normalize id) g.markets ≡ found = cc in listed found g1 same1 is_found r1
  where
    listed :
        (found : Option MarketPair) (g1 : GameBoard)
        → g ≡ g1
        → lookup (normalize id) g.markets ≡ found
        → occupied_or_vacant (normalize id) found g1 ≡ done (mkt, g')
        → IsListed (normalize id) mkt g'
    listed (some m) g1 same1 there r =
        let is_mkt : m ≡ mkt = cc in
        let board : g ≡ g' = same1 ∙ cc in
        subst (λ b. IsListed (normalize id) mkt b) board
          (subst (λ x. IsListed (normalize id) x g) is_mkt (there, own m there))
    listed none g1 same1 there r = create_market-IsListed (normalize id) mkt g1 r
