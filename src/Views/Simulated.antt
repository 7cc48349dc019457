-- ===== src/Views/Simulated.antt =====
-- game/mod.rs and tokens/token_swap.rs: a simulated trade moves nothing.
use judica_vm.Base.{
  ℕ, ◌≡◌, refl, sym, ap, ◌∙◌, subst, ◌⊎◌, Bool, true, false, Option, none, some, done, panic, inl,
  inr, Outcome-cases, if◌then◌else◌,
}
use judica_vm.Base.Exec.{
  Result, ◌>>=◌, and_then, After, Preserves, preserves_rules, Preserves-and_then, continue,
}
use judica_vm.Base.Order.{nat_ord}
use judica_vm.Base.Map.{lookup}
use judica_vm.Base.Text.{Text}
use judica_vm.Entity.{EntityId}
use judica_vm.Tokens.{TokenPointer}
use judica_vm.TradingPair.{TradingPairId, is_normal, normalize}
use judica_vm.Moves.{TradeError, TradeOutcome}
use judica_vm.Board.{GameBoard, Game, MarketPair, coins, token_at, balance_of}
use judica_vm.Market.{ensure}
use judica_vm.Trade.{
  Direction, nickname_of, finish_trade, buy_direction, sell_direction, buy_in, buy_normal,
  do_buy_trade, sell_in, sell_normal, do_sell_trade,
}
use judica_vm.Views.{simulate_buy_trade, simulate_sell_trade}

module _ {P : GameBoard → Type 0} where
  Preserves-token_at : (id : TokenPointer) → Preserves P (token_at id)
  unfolding token_at
  Preserves-token_at id = record {
    holds = λ g p.
        elim (lookup id (coins g))
          as (λ o. After P (elim o [ none ↦ panic | some t ↦ done (t, g) ])) [
            | none ↦ tt
            | some t ↦ p
          ];
  }

  Preserves-balance_of : (id : TokenPointer) (to : EntityId) → Preserves P (balance_of id to)
  Preserves-balance_of id to = unfold balance_of in search (preserves_rules, Preserves-token_at)

  Preserves-nickname_of : (id : TokenPointer) → Preserves P (nickname_of id)
  Preserves-nickname_of id = unfold nickname_of in search (preserves_rules, Preserves-token_at)

  ruleset reads = (preserves_rules, Preserves-balance_of, Preserves-nickname_of)

  Preserves-finish_trade :
      (id : TradingPairId) (mkt : MarketPair) (d : Direction) (names : Text × Text)
      (buy_amt sell_amt : ℕ) (sender : EntityId)
      → Preserves P (finish_trade id mkt d names buy_amt sell_amt true sender)
  Preserves-finish_trade id mkt d names buy_amt sell_amt sender =
      unfold finish_trade in search reads

  Preserves-buy_in :
      (id : TradingPairId) (mkt : MarketPair) (sell_max : Option ℕ) (sender : EntityId)
      (d : Direction)
      → Preserves P (buy_in id mkt sell_max true sender d)
  Preserves-buy_in id mkt sell_max sender d =
      unfold buy_in in search (reads, Preserves-finish_trade) depth 40

  Preserves-sell_in :
      (id : TradingPairId) (mkt : MarketPair) (buy_min : Option ℕ) (sender : EntityId)
      (d : Direction)
      → Preserves P (sell_in id mkt buy_min true sender d)
  Preserves-sell_in id mkt buy_min sender d =
      unfold sell_in in search (reads, Preserves-finish_trade) depth 40

-- Where the later call leaves the board alone, the board is that of the first.
left_alone :
    {A B : Type 0} (first : Game A) (later : A → Game B) (g g' : GameBoard) (r : B)
    → ((a : A) (g1 : GameBoard) → Preserves (λ s. s ≡ g1) (later a))
    → (first >>= later) g ≡ done (r, g')
    → (a : A) × (first g ≡ done (a, g'))
unfolding ◌>>=◌
left_alone first later g g' r reads h = elim (Outcome-cases (first g)) [
  | inl stop ↦ let gone : (first >>= later) g ≡ panic = ap (λ o. continue o later) stop in cc
  | inr ((a, g1), ran) ↦
      let rest : later a g1 ≡ done (r, g') = sym (ap (λ o. continue o later) ran) ∙ h in
      let same : g' ≡ g1 = subst (After (λ s. s ≡ g1)) rest ((reads a g1).holds g1 refl) in
      (a, ran ∙ ap (λ s. done (a, s)) (sym same))
]

abbrev pub in_order : TradingPairId → TradingPairId
in_order pair = if is_normal pair then pair else normalize pair

buy_normal_alone :
    (id : TradingPairId) (a b : ℕ) (sell_max : Option ℕ) (sender : EntityId) (g g' : GameBoard)
    (r : Result TradeError TradeOutcome)
    → buy_normal id a b sell_max true sender g ≡ done (r, g')
    → (mkt : MarketPair) × (ensure id g ≡ done (mkt, g'))
unfolding buy_normal
buy_normal_alone id a b sell_max sender g g' r h =
    left_alone (ensure id)
      (λ mkt. and_then (buy_direction id a b) (buy_in id mkt sell_max true sender)) g g' r
      (λ mkt g1. Preserves-and_then _ _ (Preserves-buy_in id mkt sell_max sender)) h

sell_normal_alone :
    (id : TradingPairId) (a b : ℕ) (buy_min : Option ℕ) (sender : EntityId) (g g' : GameBoard)
    (r : Result TradeError TradeOutcome)
    → sell_normal id a b buy_min true sender g ≡ done (r, g')
    → (mkt : MarketPair) × (ensure id g ≡ done (mkt, g'))
unfolding sell_normal
sell_normal_alone id a b buy_min sender g g' r h =
    left_alone (ensure id)
      (λ mkt. and_then (sell_direction id a b) (sell_in id mkt buy_min true sender)) g g' r
      (λ mkt g1. Preserves-and_then _ _ (Preserves-sell_in id mkt buy_min sender)) h

buy_alone :
    (normal : Bool) (pair : TradingPairId) (a b : ℕ) (sender : EntityId) (g g' : GameBoard)
    (r : Result TradeError TradeOutcome)
    → (if normal
          then buy_normal pair a b none true sender
          else buy_normal (normalize pair) b a none true sender)
        g
      ≡ done (r, g')
    → (mkt : MarketPair) × (ensure (if normal then pair else normalize pair) g ≡ done (mkt, g'))
buy_alone true pair a b sender g g' r h = buy_normal_alone pair a b none sender g g' r h
buy_alone false pair a b sender g g' r h =
    buy_normal_alone (normalize pair) b a none sender g g' r h

sell_alone :
    (normal : Bool) (pair : TradingPairId) (a b : ℕ) (sender : EntityId) (g g' : GameBoard)
    (r : Result TradeError TradeOutcome)
    → (if normal
          then sell_normal pair a b none true sender
          else sell_normal (normalize pair) b a none true sender)
        g
      ≡ done (r, g')
    → (mkt : MarketPair) × (ensure (if normal then pair else normalize pair) g ≡ done (mkt, g'))
sell_alone true pair a b sender g g' r h = sell_normal_alone pair a b none sender g g' r h
sell_alone false pair a b sender g g' r h =
    sell_normal_alone (normalize pair) b a none sender g g' r h

-- Whatever a simulated buy or sale answers, it leaves the board that opening the pair's market
-- leaves: with the market there, the board as it was.
pub simulate_alone :
    (pair : TradingPairId) (a b : ℕ) (sender : EntityId) (g g' : GameBoard)
    (r : Result TradeError TradeOutcome)
    → (simulate_buy_trade pair a b sender g ≡ done (r, g'))
      ⊎ (simulate_sell_trade pair a b sender g ≡ done (r, g'))
    → (mkt : MarketPair) × (ensure (in_order pair) g ≡ done (mkt, g'))
unfolding simulate_buy_trade simulate_sell_trade do_buy_trade do_sell_trade
simulate_alone pair a b sender g g' r (inl h) = buy_alone (is_normal pair) pair a b sender g g' r h
simulate_alone pair a b sender g g' r (inr h) = sell_alone (is_normal pair) pair a b sender g g' r h
