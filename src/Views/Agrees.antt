-- ===== src/Views/Agrees.antt =====
-- game/mod.rs and tokens/token_swap.rs: what a simulated trade answers is what the trade does.
use judica_vm.Base.{ℕ, ◌≡◌, Bool, true, false, Option, none, Outcome, done, panic, if◌then◌else◌}
use judica_vm.Base.Exec.{Result, ok, err, pure, ◌>>=◌, and_then, continue}
use judica_vm.Base.Text.{Text}
use judica_vm.Entity.{EntityId}
use judica_vm.TradingPair.{TradingPairId, is_normal, normalize}
use judica_vm.Moves.{TradeError, TradeOutcome}
use judica_vm.Board.{GameBoard, Game, MarketPair}
use judica_vm.Market.{ensure}
use judica_vm.Trade.{
  Direction, finish_trade, buy_direction, sell_direction, buy_in, buy_normal, do_buy_trade, sell_in,
  sell_normal, do_sell_trade,
}
use judica_vm.Views.{simulate_buy_trade, simulate_sell_trade}

-- What the first call accepts, the second accepts with the same outcome, on a board of its own.
pub record Foretells {A : Type 0} (real simulated : Game (Result TradeError A)) : Type 0 where
  pub same_outcome :
      (g g' : GameBoard) (o : A)
      → real g ≡ done (ok o, g')
      → (g'' : GameBoard) × (simulated g ≡ done (ok o, g''))

module _ {A : Type 0} where
  Foretells-self : (call : Game (Result TradeError A)) → Foretells call call
  Foretells-self call = record { same_outcome = λ g g' o h. (g', h) }

  Foretells-if :
      (test : Bool) (m m' n n' : Game (Result TradeError A))
      → Foretells m m'
      → Foretells n n'
      → Foretells (if test then m else n) (if test then m' else n')
  Foretells-if true m m' n n' fm fn = fm
  Foretells-if false m m' n n' fm fn = fn

  -- The coins that are moved have no part in the outcome.
  Foretells-moved :
      (moved : Game (Result TradeError Unit)) (outcome : A)
      → Foretells
          (moved >>= λ r. and_then r (λ _. pure (ok outcome)))
          (pure (ok tt) >>= λ r. and_then r (λ _. pure (ok outcome)))
  unfolding ◌>>=◌ and_then
  Foretells-moved moved outcome = record {
    same_outcome = λ g g' o h. (g, moved_outcome (moved g) h);
  }
    where
      moved_outcome :
          {o : A} {g g' : GameBoard} (res : Outcome (Result TradeError Unit × GameBoard))
          → continue res (λ r. and_then r (λ _. pure (ok outcome))) ≡ done (ok o, g')
          → ◌≡◌ {A = Outcome (Result TradeError A × GameBoard)}
              (done (ok outcome, g))
              (done (ok o, g))
      moved_outcome (done (ok _, g1)) h = cc
      moved_outcome (done (err e, g1)) h = cc
      moved_outcome panic h = cc

module _ {A B : Type 0} where
  Foretells-bind :
      (head : Game B) (f f' : B → Game (Result TradeError A))
      → ((b : B) → Foretells (f b) (f' b))
      → Foretells (head >>= f) (head >>= f')
  unfolding ◌>>=◌
  Foretells-bind head f f' later = record { same_outcome = λ g g' o h. after (head g) g' o h }
    where
      after :
          (res : Outcome (B × GameBoard)) (g' : GameBoard) (o : A)
          → continue res f ≡ done (ok o, g')
          → (g'' : GameBoard) × (continue res f' ≡ done (ok o, g''))
      after (done (b, g1)) g' o h = (later b).same_outcome g1 g' o h
      after panic g' o h = cc

  Foretells-and_then :
      (r : Result TradeError B) (f f' : B → Game (Result TradeError A))
      → ((b : B) → Foretells (f b) (f' b))
      → Foretells (and_then r f) (and_then r f')
  unfolding and_then
  Foretells-and_then (ok b) f f' later = later b
  Foretells-and_then (err e) f f' later = Foretells-self (pure (err e))

ruleset foretold =
    (Foretells-bind, Foretells-if, Foretells-and_then, Foretells-moved, Foretells-self)

Foretells-finish_trade :
    (id : TradingPairId) (mkt : MarketPair) (d : Direction) (names : Text × Text)
    (buy_amt sell_amt : ℕ) (sender : EntityId)
    → Foretells
        (finish_trade id mkt d names buy_amt sell_amt false sender)
        (finish_trade id mkt d names buy_amt sell_amt true sender)
Foretells-finish_trade id mkt d names buy_amt sell_amt sender =
    unfold finish_trade in search foretold depth 20

Foretells-buy_in :
    (id : TradingPairId) (mkt : MarketPair) (sell_max : Option ℕ) (sender : EntityId)
    (d : Direction)
    → Foretells (buy_in id mkt sell_max false sender d) (buy_in id mkt sell_max true sender d)
Foretells-buy_in id mkt sell_max sender d =
    unfold buy_in in search (foretold, Foretells-finish_trade) depth 40

Foretells-sell_in :
    (id : TradingPairId) (mkt : MarketPair) (buy_min : Option ℕ) (sender : EntityId) (d : Direction)
    → Foretells (sell_in id mkt buy_min false sender d) (sell_in id mkt buy_min true sender d)
Foretells-sell_in id mkt buy_min sender d =
    unfold sell_in in search (foretold, Foretells-finish_trade) depth 40

Foretells-buy_normal :
    (id : TradingPairId) (a b : ℕ) (sell_max : Option ℕ) (sender : EntityId)
    → Foretells (buy_normal id a b sell_max false sender) (buy_normal id a b sell_max true sender)
unfolding buy_normal
Foretells-buy_normal id a b sell_max sender =
    Foretells-bind (ensure id) _ _ (λ mkt.
      Foretells-and_then (buy_direction id a b) _ _ (Foretells-buy_in id mkt sell_max sender))

Foretells-sell_normal :
    (id : TradingPairId) (a b : ℕ) (buy_min : Option ℕ) (sender : EntityId)
    → Foretells (sell_normal id a b buy_min false sender) (sell_normal id a b buy_min true sender)
unfolding sell_normal
Foretells-sell_normal id a b buy_min sender = Foretells-bind (ensure id) _ _ (λ mkt.
    Foretells-and_then (sell_direction id a b) _ _ (Foretells-sell_in id mkt buy_min sender))

-- A buy or a sale without a limit that is accepted has the outcome that its simulation on the same
-- board answers.
pub simulate-do_trade :
    (buys : Bool) (pair : TradingPairId) (a b : ℕ) (sender : EntityId) (g g' : GameBoard)
    (o : TradeOutcome)
    → (if buys
          then do_buy_trade pair a b none false sender
          else do_sell_trade pair a b none false sender)
        g
      ≡ done (ok o, g')
    → (g'' : GameBoard) × ((if buys
            then simulate_buy_trade pair a b sender
            else simulate_sell_trade pair a b sender)
          g
        ≡ done (ok o, g''))
unfolding simulate_buy_trade simulate_sell_trade do_buy_trade do_sell_trade
simulate-do_trade true pair a b sender g g' o h =
    (Foretells-if (is_normal pair) _ _ _ _ (Foretells-buy_normal pair a b none sender)
        (Foretells-buy_normal (normalize pair) b a none sender)).same_outcome
      g g' o h
simulate-do_trade false pair a b sender g g' o h =
    (Foretells-if (is_normal pair) _ _ _ _ (Foretells-sell_normal pair a b none sender)
        (Foretells-sell_normal (normalize pair) b a none sender)).same_outcome
      g g' o h
