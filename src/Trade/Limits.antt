-- ===== src/Trade/Limits.antt =====
-- tokens/token_swap.rs: what a trade on a normal pair moves, against what it reports.
use judica_vm.Base.{
  ℕ, ◌≡◌, refl, sym, ap, subst, ◌∙◌, arith, Bool, true, false, Option, some, done, ltb, not, unwrap,
  ◌==◌, if◌then◌else◌, Bool-cases, inl, inr,
}
use judica_vm.Base.Exec.{Result, ok, err, pure, lift, and_then}
use judica_vm.Base.Text.{Text, ascii}
use judica_vm.Base.Map.{lookup}
use judica_vm.Entity.{EntityId}
use judica_vm.Tokens.{TokenPointer}
use judica_vm.TradingPair.{TradingPairId, trading_pair_ord, normalize}
use judica_vm.Moves.{TradeError, TradeOutcome, insufficient_tokens}
use judica_vm.Board.{GameBoard, Game, MarketPair, coins, token_at, balance_of}
use judica_vm.Market.{ensure}
use judica_vm.Quote.{buy_quote, sell_quote}
use judica_vm.Trade.{
  Direction, nickname_of, buy_direction, sell_direction, finish_trade, check_max, check_min,
  check_liquidity, buy_in, sell_in, buy_normal, sell_normal,
}
use judica_vm.Trade.Moved.{IsListed, bind_inv, lift_inv, token_at_inv, balance_of_inv}
use judica_vm.Trade.Executed.{IsExchanged, pair_of, finish_trade-IsExchanged}
use judica_vm.Trade.Opened.{ensure-IsListed}

-- The asset that the amounts of a trade name, and the other one.
abbrev pub named : TradingPairId → ℕ → TokenPointer
named id a = if a == 0 then id.asset_b else id.asset_a

abbrev pub other : TradingPairId → ℕ → TokenPointer
other id a = if a == 0 then id.asset_a else id.asset_b

normalize_swap : (x y : TokenPointer) → normalize (pair_of x y) ≡ normalize (pair_of y x)
unfolding normalize
normalize_swap x y = ground arith

normalize-named :
    (id : TradingPairId) (a : ℕ)
    → (normalize (pair_of (other id a) (named id a)) ≡ normalize id)
      × (normalize (pair_of (named id a) (other id a)) ≡ normalize id)
normalize-named id a = elim (Bool-cases (a == 0)) [
  | inl zeroth ↦ rw zeroth (refl, normalize_swap id.asset_b id.asset_a)
  | inr some_a ↦ rw some_a (normalize_swap id.asset_b id.asset_a, refl)
]

-- The assets of a direction, also where the pair is given the other way round.
pub direction_assets :
    (id : TradingPairId) (a b : ℕ) (d : Direction)
    → (buy_direction id a b ≡ ok d → (d.0 ≡ named id a) × (d.1 ≡ other id a))
      × (sell_direction id a b ≡ ok d → (d.0 ≡ other id a) × (d.1 ≡ named id a))
unfolding buy_direction sell_direction
direction_assets id a b d = (λ h. ground arith, λ h. ground arith)

pub one_named :
    (id : TradingPairId) (a b : ℕ) (d : Direction)
    → (buy_direction id a b ≡ ok d → (a == 0) ≡ not (b == 0))
      × (sell_direction id a b ≡ ok d → (a == 0) ≡ not (b == 0))
unfolding buy_direction sell_direction
one_named id a b d = (λ h. ground arith, λ h. ground arith)

pub nickname_of_inv :
    (id : TokenPointer) (g : GameBoard) {t : Text} {g' : GameBoard}
    → nickname_of id g ≡ done (t, g')
    → g' ≡ g
unfolding nickname_of
nickname_of_inv id g h =
    let (t, g1, e1, r1) = bind_inv (token_at id) _ g h in
    (lift_inv (unwrap t.nickname) g1 r1).1 ∙ token_at_inv id g e1

pub and_then_inv :
    {A : Type 0} (r : Result TradeError A) (f : A → Game (Result TradeError TradeOutcome))
    (g : GameBoard) {o : TradeOutcome} {g' : GameBoard}
    → and_then r f g ≡ done (ok o, g')
    → (a : A) × (r ≡ ok a) × (f a g ≡ done (ok o, g'))
unfolding and_then pure
and_then_inv (ok a) f g h = (a, refl, h)
and_then_inv (err e) f g h = cc

pub unless_inv :
    (b : Bool) (e : TradeError) (m : Game (Result TradeError TradeOutcome)) (g : GameBoard)
    {o : TradeOutcome} {g' : GameBoard}
    → (if b then pure (err e) else m) g ≡ done (ok o, g')
    → m g ≡ done (ok o, g')
unfolding pure
unless_inv true e m g h = cc
unless_inv false e m g h = h

-- A trade with the market of a pair: the player pays it what the outcome reports as sold, and is paid
-- by it what the outcome reports as bought.
abbrev pub IsTraded :
    EntityId
    → TokenPointer
    → TokenPointer
    → MarketPair
    → GameBoard
    → TradeOutcome
    → GameBoard
    → Type 0
IsTraded s selling buying mkt g o g' =
    IsExchanged mkt s selling buying o.amount_player_sold o.amount_player_purchased (coins g)
      (coins g')

finish_trade-IsTraded :
    (id : TradingPairId) (mkt : MarketPair) (buying selling n : ℕ) (names : Text × Text)
    (bought sold : ℕ) (s : EntityId) (g g0 : GameBoard) {o : TradeOutcome} {g' : GameBoard}
    → g ≡ g0
    → IsListed (normalize (pair_of selling buying)) mkt g0
    → finish_trade id mkt (buying, selling, n) names bought sold false s g ≡ done (ok o, g')
    → IsTraded s selling buying mkt g0 o g'
finish_trade-IsTraded id mkt buying selling n names bought sold s g g0 {o} {g'} same listed h =
    let there =
      subst (λ b. IsListed (normalize (pair_of selling buying)) mkt b) (sym same) listed in
    let (all_bought, all_sold, moved) =
      finish_trade-IsExchanged id mkt buying selling n names bought sold s g there h in
    subst (λ b. IsTraded s selling buying mkt b o g') same
      (subst (λ x. IsExchanged mkt s selling buying o.amount_player_sold x (coins g) (coins g'))
        (sym all_bought)
        (subst (λ x. IsExchanged mkt s selling buying x bought (coins g) (coins g')) (sym all_sold)
          moved))

buy_in-IsTraded :
    (id : TradingPairId) (mkt : MarketPair) (limit : Option ℕ) (s : EntityId) (buying selling n : ℕ)
    (g : GameBoard) {o : TradeOutcome} {g' : GameBoard}
    → IsListed (normalize (pair_of selling buying)) mkt g
    → buy_in id mkt limit false s (buying, selling, n) g ≡ done (ok o, g')
    → IsTraded s selling buying mkt g o g'
unfolding buy_in
buy_in-IsTraded id mkt limit s buying selling n g {o} {g'} listed h =
    let (sold_name, g1, e1, r1) = bind_inv (nickname_of selling) _ g h in
    let (bought_name, g2, e2, r2) = bind_inv (nickname_of buying) _ g1 r1 in
    let (p, g3, e3, r3) = bind_inv (balance_of selling mkt.id) _ g2 r2 in
    let (q, g4, e4, r4) = bind_inv (balance_of buying mkt.id) _ g3 r3 in
    let r4' =
      unless_inv (ltb q n) (insufficient_tokens (ascii "Market has insufficient tokens")) _ g4 r4 in
    let ((sell_amt, bought), g5, e5, r5) = bind_inv (lift (buy_quote p q n)) _ g4 r4' in
    let (u, within, r6) = and_then_inv (check_max limit sell_amt) _ g5 r5 in
    let same =
      (lift_inv (buy_quote p q n) g4 e5).1
      ∙ balance_of_inv buying mkt.id g3 e4
      ∙ balance_of_inv selling mkt.id g2 e3
      ∙ nickname_of_inv buying g1 e2
      ∙ nickname_of_inv selling g e1 in
    finish_trade-IsTraded id mkt buying selling n (bought_name, sold_name) bought sell_amt s g5 g
      same listed r6

sell_in-IsTraded :
    (id : TradingPairId) (mkt : MarketPair) (limit : Option ℕ) (s : EntityId) (buying selling n : ℕ)
    (g : GameBoard) {o : TradeOutcome} {g' : GameBoard}
    → IsListed (normalize (pair_of selling buying)) mkt g
    → sell_in id mkt limit false s (buying, selling, n) g ≡ done (ok o, g')
    → IsTraded s selling buying mkt g o g'
unfolding sell_in
sell_in-IsTraded id mkt limit s buying selling n g {o} {g'} listed h =
    let (bought_name, g1, e1, r1) = bind_inv (nickname_of buying) _ g h in
    let (sold_name, g2, e2, r2) = bind_inv (nickname_of selling) _ g1 r1 in
    let (p, g3, e3, r3) = bind_inv (balance_of selling mkt.id) _ g2 r2 in
    let (q, g4, e4, r4) = bind_inv (balance_of buying mkt.id) _ g3 r3 in
    let (v, liquid, r4') = and_then_inv (check_liquidity limit q) _ g4 r4 in
    let ((buy_amt, charged), g5, e5, r5) = bind_inv (lift (sell_quote q p n)) _ g4 r4' in
    let (u, within, r6) = and_then_inv (check_min limit buy_amt) _ g5 r5 in
    let same =
      (lift_inv (sell_quote q p n) g4 e5).1
      ∙ balance_of_inv buying mkt.id g3 e4
      ∙ balance_of_inv selling mkt.id g2 e3
      ∙ nickname_of_inv selling g1 e2
      ∙ nickname_of_inv buying g e1 in
    finish_trade-IsTraded id mkt buying selling n (bought_name, sold_name) buy_amt charged s g5 g
      same listed r6

-- Each market stands under its own pair, as `ensure` opens it.
abbrev pub IsOwnPair : TradingPairId → GameBoard → Type 0
IsOwnPair id g = (m : MarketPair) → lookup (normalize id) g.markets ≡ some m → m.pair ≡ normalize id

-- An executed trade on the market that `ensure` gives for the pair, from the board that it leaves.
abbrev pub IsExecuted :
    TradingPairId
    → EntityId
    → TokenPointer
    → TokenPointer
    → GameBoard
    → TradeOutcome
    → GameBoard
    → Type 0
IsExecuted id s selling buying g o g' =
    (mkt : MarketPair) × (opened : GameBoard) × (ensure id g ≡ done (mkt, opened))
    × IsTraded s selling buying mkt opened o g'

pub buy_normal-IsExecuted :
    (id : TradingPairId) (a b : ℕ) (limit : Option ℕ) (s : EntityId) (g : GameBoard)
    {o : TradeOutcome} {g' : GameBoard}
    → IsOwnPair id g
    → buy_normal id a b limit false s g ≡ done (ok o, g')
    → IsExecuted id s (other id a) (named id a) g o g' × ((a == 0) ≡ not (b == 0))
unfolding buy_normal
buy_normal-IsExecuted id a b limit s g {o} {g'} own h =
    let (mkt, g1, e1, r1) = bind_inv (ensure id) _ g h in
    let ((buying, selling, n), way, r2) = and_then_inv (buy_direction id a b) _ g1 r1 in
    let (is_buying, is_selling) = (direction_assets id a b (buying, selling, n)).0 way in
    let listed = ensure-IsListed id mkt g own e1 in
    let pair : normalize id ≡ normalize (pair_of selling buying) =
      sym ((normalize-named id a).0)
      ∙ ap (λ x. normalize (pair_of x (named id a))) (sym is_selling)
      ∙ ap (λ x. normalize (pair_of selling x)) (sym is_buying) in
    let traded =
      buy_in-IsTraded id mkt limit s buying selling n g1
        (subst (λ p. IsListed p mkt g1) pair listed) r2 in
    (
      (
        mkt,
        g1,
        e1,
        subst (λ x. IsTraded s x (named id a) mkt g1 o g') is_selling
            (subst (λ x. IsTraded s selling x mkt g1 o g') is_buying traded),
      ),
      (one_named id a b (buying, selling, n)).0 way,
    )

pub sell_normal-IsExecuted :
    (id : TradingPairId) (a b : ℕ) (limit : Option ℕ) (s : EntityId) (g : GameBoard)
    {o : TradeOutcome} {g' : GameBoard}
    → IsOwnPair id g
    → sell_normal id a b limit false s g ≡ done (ok o, g')
    → IsExecuted id s (named id a) (other id a) g o g' × ((a == 0) ≡ not (b == 0))
unfolding sell_normal
sell_normal-IsExecuted id a b limit s g {o} {g'} own h =
    let (mkt, g1, e1, r1) = bind_inv (ensure id) _ g h in
    let ((buying, selling, n), way, r2) = and_then_inv (sell_direction id a b) _ g1 r1 in
    let (is_buying, is_selling) = (direction_assets id a b (buying, selling, n)).1 way in
    let listed = ensure-IsListed id mkt g own e1 in
    let pair : normalize id ≡ normalize (pair_of selling buying) =
      sym ((normalize-named id a).1)
      ∙ ap (λ x. normalize (pair_of x (other id a))) (sym is_selling)
      ∙ ap (λ x. normalize (pair_of selling x)) (sym is_buying) in
    let traded =
      sell_in-IsTraded id mkt limit s buying selling n g1
        (subst (λ p. IsListed p mkt g1) pair listed) r2 in
    (
      (
        mkt,
        g1,
        e1,
        subst (λ x. IsTraded s x (other id a) mkt g1 o g') is_selling
            (subst (λ x. IsTraded s selling x mkt g1 o g') is_buying traded),
      ),
      (one_named id a b (buying, selling, n)).1 way,
    )
