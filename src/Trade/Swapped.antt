-- ===== src/Trade/Swapped.antt =====
-- tokens/token_swap.rs: the coins that the swap of a market moves.
use judica_vm.Base.{
  ℕ, ◌≡◌, refl, sym, ap, subst, ◌∙◌, arith, Bool, true, false, not, ◌||◌, ◌==◌, some, Outcome, done,
  unwrap, ltb, if◌then◌else◌, mul, u128,
}
use judica_vm.Base.Exec.{ok, err, pure, lift, gets, modify, ◌>>=◌, ◌>>◌}
use judica_vm.Base.Map.{lookup}
use judica_vm.Base.Order.{nat_ord}
use judica_vm.Entity.{EntityId}
use judica_vm.TradingPair.{TradingPairId, trading_pair_ord, normalize}
use judica_vm.Base.Text.{ascii}
use judica_vm.Moves.{TradeError, invalid_trade, insufficient_tokens}
use judica_vm.Board.{GameBoard, Game, MarketPair, coins, balance_of}
use judica_vm.Market.{
  ensure, send, undo_swap, settle_swap, on_market, set_reserves, raw_swap_normal, put_market,
}
use judica_vm.Trade.Moved.{IsSent, bind_inv, lift_inv, balance_of_inv, send-IsSent}

pub ensure_found :
    (id : TradingPairId) (mkt : MarketPair) (g : GameBoard)
    → lookup (normalize id) g.markets ≡ some mkt
    → ensure id g ≡ done (mkt, g)
unfolding ensure ◌>>=◌ gets pure
ensure_found id mkt g found = rw (found) refl

on_market_inv :
    (pair : TradingPairId) (f : MarketPair → Outcome MarketPair) (g : GameBoard) {u : Unit {0}}
    {g' : GameBoard}
    → on_market pair f g ≡ done (u, g')
    → coins g' ≡ coins g
unfolding on_market gets modify put_market
on_market_inv pair f g {u} {g'} h =
    let (found, g1, e1, r1) =
      bind_inv (gets (λ b. lookup pair b.markets))
        (λ found. lift (unwrap found) >>= λ p. lift (f p) >>= λ p'. modify (put_market pair p')) g
        h in
    let (p, g2, e2, r2) = bind_inv (lift (unwrap found)) _ g1 r1 in
    let (p', g3, e3, r3) = bind_inv (lift (f p)) _ g2 r2 in
    let (_, same2) = lift_inv (unwrap found) g1 e2 in
    let (_, same3) = lift_inv (f p) g2 e3 in
    let same1 : g ≡ g1 = cc in
    let last : put_market pair p' g3 ≡ g' = cc in
    ap coins (sym last) ∙ ap coins (same3 ∙ same2 ∙ sym same1)

settle_swap_inv :
    (mkt : MarketPair) (s : EntityId) (a b : ℕ) (g : GameBoard) {u : Unit {0}} {g' : GameBoard}
    → settle_swap mkt s a b g ≡ done (ok u, g')
    → coins g' ≡ coins g
unfolding settle_swap pure
settle_swap_inv mkt s a b g {u} {g'} h =
    let (held_a, g1, e1, r1) = bind_inv (balance_of mkt.pair.asset_a mkt.id) _ g h in
    let (held_b, g2, e2, r2) = bind_inv (balance_of mkt.pair.asset_b mkt.id) _ g1 r1 in
    let (k_2, g3, e3, r3) = bind_inv (lift (mul u128 held_a held_b)) _ g2 r2 in
    let (k_1, g4, e4, r4) = bind_inv (lift (mul u128 mkt.reserve_a mkt.reserve_b)) _ g3 r3 in
    let same1 = balance_of_inv mkt.pair.asset_a mkt.id g e1 in
    let same2 = balance_of_inv mkt.pair.asset_b mkt.id g1 e2 in
    let (_, same3) = lift_inv (mul u128 held_a held_b) g2 e3 in
    let (_, same4) = lift_inv (mul u128 mkt.reserve_a mkt.reserve_b) g3 e4 in
    last held_a held_b g4 (ltb k_2 k_1) r4 ∙ ap coins (same4 ∙ same3 ∙ same2 ∙ same1)
  where
    last :
        (held_a held_b : ℕ) (g4 : GameBoard) (short : Bool)
        → (if short
              then undo_swap mkt s a b
                >> pure (err (invalid_trade (ascii "Reserves Not Preserved")))
              else on_market mkt.pair (set_reserves held_a held_b) >> pure (ok tt))
            g4
          ≡ done (ok u, g')
        → coins g' ≡ coins g4
    last held_a held_b g4 true r = let (v, g5, e5, r5) = bind_inv (undo_swap mkt s a b) _ g4 r in cc
    last held_a held_b g4 false r =
        let (v, g5, e5, r5) = bind_inv (on_market mkt.pair (set_reserves held_a held_b)) _ g4 r in
        let same5 : g5 ≡ g' = cc in
        ap coins (sym same5) ∙ on_market_inv mkt.pair (set_reserves held_a held_b) g4 e5

-- Both parts of a swap, by the pair of the market.
abbrev pub IsSwapped : MarketPair → EntityId → ℕ → ℕ → GameBoard → GameBoard → Type 0
IsSwapped mkt s a b g g' =
    (mid : GameBoard) × IsSent mkt.pair.asset_a mkt.id s a (coins g) (coins mid)
    × (a ≡ 0 → coins mid ≡ coins g)
    × IsSent mkt.pair.asset_b mkt.id s b (coins mid) (coins g')
    × (b ≡ 0 → coins g' ≡ coins mid)

-- The end of a swap that goes through.
settled :
    (bad : Bool) (undo : Game Unit) (e : TradeError) (m : MarketPair) (s : EntityId) (a b : ℕ)
    (g : GameBoard) {u : Unit {0}} {g' : GameBoard}
    → (if bad then undo >> pure (err e) else settle_swap m s a b) g ≡ done (ok u, g')
    → (bad ≡ false) × (coins g' ≡ coins g)
unfolding pure
settled false undo e m s a b g h = (refl, settle_swap_inv m s a b g h)
settled true undo e m s a b g h = let (v, g5, e5, r5) = bind_inv undo _ g h in cc

both_sent :
    (sent_a sent_b a b : ℕ)
    → not (sent_a == a) || not (sent_b == b) ≡ false
    → (sent_a ≡ a) × (sent_b ≡ b)
both_sent sent_a sent_b a b h = ground arith

swap-IsSwapped :
    (m : MarketPair) (s : EntityId) (a b : ℕ) (g : GameBoard) {u : Unit {0}} {g' : GameBoard}
    → (send m.pair.asset_a m.id s a >>= λ sent_a. send m.pair.asset_b m.id s b >>= λ sent_b.
          if not (sent_a == a) || not (sent_b == b)
          then undo_swap m s sent_a sent_b
            >> pure (err (insufficient_tokens (ascii "Insufficient funds asset")))
          else settle_swap m s a b)
        g
      ≡ done (ok u, g')
    → IsSwapped m s a b g g'
swap-IsSwapped m s a b g {u} {g'} h =
    let (sent_a, g2, e2, r2) = bind_inv (send m.pair.asset_a m.id s a) _ g h in
    let (sent_b, g3, e3, r3) = bind_inv (send m.pair.asset_b m.id s b) _ g2 r2 in
    let (good, same) =
      settled (not (sent_a == a) || not (sent_b == b)) (undo_swap m s sent_a sent_b)
        (insufficient_tokens (ascii "Insufficient funds asset")) m s a b g3 r3 in
    let (sa, sb) = both_sent sent_a sent_b a b good in
    let (moved_a, _, none_a) =
      send-IsSent m.pair.asset_a m.id s a g
        (subst (λ n. send m.pair.asset_a m.id s a g ≡ done (n, g2)) sa e2) in
    let (moved_b, _, none_b) =
      send-IsSent m.pair.asset_b m.id s b g2
        (subst (λ n. send m.pair.asset_b m.id s b g2 ≡ done (n, g3)) sb e3) in
    (
      g2,
      moved_a,
      λ z. ap coins (none_a z),
      subst (λ c. IsSent m.pair.asset_b m.id s b (coins g2) c) (sym same) moved_b,
      λ z. same ∙ ap coins (none_b z),
    )

pub raw_swap_normal-IsSwapped :
    (id : TradingPairId) (mkt : MarketPair) (s : EntityId) (a b : ℕ) (g : GameBoard) {u : Unit {0}}
    {g' : GameBoard}
    → lookup (normalize id) g.markets ≡ some mkt
    → raw_swap_normal id a b s g ≡ done (ok u, g')
    → IsSwapped mkt s a b g g'
unfolding raw_swap_normal
raw_swap_normal-IsSwapped id mkt s a b g {u} {g'} listed h =
    let (m, g1, e1, r1) = bind_inv (ensure id) _ g h in
    let found = ensure_found id mkt g listed in
    let is_mkt : m ≡ mkt = cc in
    let same : g1 ≡ g = cc in
    subst (λ x. IsSwapped x s a b g g') is_mkt
      (subst (λ y. IsSwapped m s a b y g') same (swap-IsSwapped m s a b g1 r1))
