-- ===== src/Trade/Flipped.antt =====
-- tokens/token_swap.rs: do_buy_trade and do_sell_trade on a pair that is given either way round.
use judica_vm.Base.{
  ℕ, ◌≡◌, sym, ap, subst, ◌∙◌, arith, Bool, false, Option, some, Outcome, done, not, ◌==◌,
  if◌then◌else◌, Bool-cases, inl, inr,
}
use judica_vm.Base.Exec.{Result, ok}
use judica_vm.Base.Map.{lookup}
use judica_vm.Entity.{EntityId}
use judica_vm.TradingPair.{TradingPairId, trading_pair_ord, is_normal, normalize}
use judica_vm.Moves.{TradeError, TradeOutcome}
use judica_vm.Board.{GameBoard, MarketPair}
use judica_vm.Trade.{buy_normal, sell_normal, do_buy_trade, do_sell_trade}
use judica_vm.Trade.Executed.{normalize_normal, normalize_flipped, normalize-is_normal}
use judica_vm.Trade.Limits.{
  IsOwnPair, IsExecuted, named, other, buy_normal-IsExecuted, sell_normal-IsExecuted,
}

-- The pair the other way round names the same assets.
flipped_assets :
    (id : TradingPairId) (a b : ℕ)
    → is_normal id ≡ false
    → (b == 0) ≡ not (a == 0)
    → (other (normalize id) b ≡ other id a) × (named (normalize id) b ≡ named id a)
flipped_assets id a b high one =
    subst (λ p. (other p b ≡ other id a) × (named p b ≡ named id a))
      (sym (normalize_flipped id high)) (grind arith, grind arith)

own_normal : (id : TradingPairId) (g : GameBoard) → IsOwnPair id g → IsOwnPair (normalize id) g
own_normal id g own =
    subst (λ p. (m : MarketPair) → lookup p g.markets ≡ some m → m.pair ≡ p)
      (sym (normalize_normal (normalize id) (normalize-is_normal id))) own

pub do_buy_trade-IsExecuted :
    (id : TradingPairId) (a b : ℕ) (limit : Option ℕ) (s : EntityId) (g : GameBoard)
    {o : TradeOutcome} {g' : GameBoard}
    → IsOwnPair id g
    → do_buy_trade id a b limit false s g ≡ done (ok o, g')
    → IsExecuted (normalize id) s (other id a) (named id a) g o g'
unfolding do_buy_trade
do_buy_trade-IsExecuted id a b limit s g {o} {g'} own h =
    let way : Bool → Outcome (Result TradeError TradeOutcome × GameBoard) = λ low.
      (if low then buy_normal id a b limit false s else buy_normal (normalize id) b a limit false s)
        g in
    elim (Bool-cases (is_normal id)) [
      | inl low ↦
          subst (λ p. IsExecuted p s (other id a) (named id a) g o g')
            (sym (normalize_normal id low))
            ((buy_normal-IsExecuted id a b limit s g own (ap way (sym low) ∙ h)).0)
      | inr high ↦
          let (moved, one) =
            buy_normal-IsExecuted (normalize id) b a limit s g (own_normal id g own)
              (ap way (sym high) ∙ h) in
          let (is_other, is_named) = flipped_assets id a b high one in
          subst (λ x. IsExecuted (normalize id) s x (named id a) g o g') is_other
            (subst (λ x. IsExecuted (normalize id) s (other (normalize id) b) x g o g') is_named
              moved)
    ]

pub do_sell_trade-IsExecuted :
    (id : TradingPairId) (a b : ℕ) (limit : Option ℕ) (s : EntityId) (g : GameBoard)
    {o : TradeOutcome} {g' : GameBoard}
    → IsOwnPair id g
    → do_sell_trade id a b limit false s g ≡ done (ok o, g')
    → IsExecuted (normalize id) s (named id a) (other id a) g o g'
unfolding do_sell_trade
do_sell_trade-IsExecuted id a b limit s g {o} {g'} own h =
    let way : Bool → Outcome (Result TradeError TradeOutcome × GameBoard) = λ low.
      (if low
          then sell_normal id a b limit false s
          else sell_normal (normalize id) b a limit false s)
        g in
    elim (Bool-cases (is_normal id)) [
      | inl low ↦
          subst (λ p. IsExecuted p s (named id a) (other id a) g o g')
            (sym (normalize_normal id low))
            ((sell_normal-IsExecuted id a b limit s g own (ap way (sym low) ∙ h)).0)
      | inr high ↦
          let (moved, one) =
            sell_normal-IsExecuted (normalize id) b a limit s g (own_normal id g own)
              (ap way (sym high) ∙ h) in
          let (is_other, is_named) = flipped_assets id a b high one in
          subst (λ x. IsExecuted (normalize id) s x (other id a) g o g') is_named
            (subst (λ x. IsExecuted (normalize id) s (named (normalize id) b) x g o g') is_other
              moved)
    ]
