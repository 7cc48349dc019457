-- ===== src/Money/Rules.antt =====
-- When a method call on a token, the allocator and a new market keep an invariant of the coins.
use judica_vm.Base.{
  ℕ, ◌+◌, ◌≡◌, refl, arith, Option, none, some, Outcome, done, panic, ltb, inl, inr, ◌⊎◌,
  Bool-cases, add, u64,
}
use judica_vm.Base.Exec.{Preserves, Preserves-bind, After, modify, pure, ◌>>=◌ as and_do}
use judica_vm.Base.Map.{BTreeMap, lookup, insert}
use judica_vm.Base.Order.{nat_ord}
use judica_vm.Base.Text.{Text}
use judica_vm.Entity.{EntityId, make}
use judica_vm.Tokens.{TokenBase, TokenPointer, new_token}
use judica_vm.TradingPair.{TradingPairId}
use judica_vm.Board.{GameBoard, MarketPair, coins, on_token, put_back, alloc, token_at}
use judica_vm.Market.{name_of, shares_token, open_market, allocate_market, create_market}
use judica_vm.Money.{CoinPredicate, Holds}

module _ {P : CoinPredicate} {A : Type 0} where
  pub on_token-Preserves :
      (id : TokenPointer) (f : TokenBase → Outcome (A × TokenBase))
      → ((m : BTreeMap EntityId TokenBase) (a : ℕ) (t : TokenBase)
          → P m a
          → lookup id m ≡ some t
          → (r : A) (t' : TokenBase) → f t ≡ done (r, t')
          → P (insert id t' m) a)
      → Preserves (Holds P) (on_token id f)
  unfolding on_token put_back
  on_token-Preserves id f step = record { holds = λ g h. found g h (lookup id (coins g)) refl }
    where
      put :
          (g : GameBoard)
          → Holds P g
          → (t : TokenBase) → lookup id (coins g) ≡ some t
          → (o : Outcome (A × TokenBase)) → f t ≡ o
          → After (Holds P) (put_back id g o)
      put g h t e panic e' = tt
      put g h t e (done (r, t')) e' = step (coins g) g.alloc t h e r t' e'

      found :
          (g : GameBoard)
          → Holds P g
          → (o : Option TokenBase) → lookup id (coins g) ≡ o
          → After (Holds P) (elim o [ none ↦ panic | some t ↦ put_back id g (f t) ])
      found g h none e = tt
      found g h (some t) e = put g h t e (f t) refl

alloc_cases :
    (g : GameBoard)
    → (alloc g ≡ panic) ⊎ (alloc g ≡ done (g.alloc + 1, record g { alloc = g.alloc + 1 }))
unfolding alloc make add
alloc_cases g = elim (Bool-cases (ltb (g.alloc + 1) u64)) [
  | inl fits ↦ inr (ground arith)
  | inr big ↦ inl (ground arith)
]

abbrev opened : TradingPairId → Text → Text → GameBoard → GameBoard
unfolding open_market shares_token new_token
opened pair x y g =
    open_market pair (shares_token (g.alloc + 1) x y) (g.alloc + 1 + 1)
      (record g { alloc = g.alloc + 1 + 1 })

abbrev pair_of_ids : TradingPairId → ℕ → MarketPair
pair_of_ids pair n = record {
  pair = pair;
  id = n + 1 + 1;
  lp = n + 1;
  reserve_a = 0;
  reserve_b = 0;
}

allocate_cases :
    (pair : TradingPairId) (x y : Text) (g : GameBoard)
    → (allocate_market pair x y g ≡ panic)
      ⊎ (allocate_market pair x y g ≡ done (pair_of_ids pair g.alloc, opened pair x y g))
unfolding allocate_market and_do modify pure
allocate_cases pair x y g = elim (alloc_cases g) [
  | inl stop ↦ inl (rw stop refl)
  | inr e ↦ elim (alloc_cases (record g { alloc = g.alloc + 1 })) [
    | inl stop ↦ inl (rw (e, stop) refl)
    | inr e' ↦ inr (rw (e, e') refl)
  ]
]

token_at-Preserves : (P : CoinPredicate) (id : TokenPointer) → Preserves (Holds P) (token_at id)
unfolding token_at
token_at-Preserves P id = record { holds = λ g h. case g h (lookup id (coins g)) }
  where
    case :
        (g : GameBoard)
        → Holds P g
        → (o : Option TokenBase) → After (Holds P) (elim o [ none ↦ panic | some t ↦ done (t, g) ])
    case g h none = tt
    case g h (some t) = h

module _ {P : CoinPredicate} where
  pub alloc-Preserves :
      ((m : BTreeMap EntityId TokenBase) (a : ℕ) → P m a → P m (a + 1)) → Preserves (Holds P) alloc
  alloc-Preserves step = record { holds = λ g h. case g h (alloc_cases g) }
    where
      case :
          (g : GameBoard)
          → Holds P g
          → (alloc g ≡ panic) ⊎ (alloc g ≡ done (g.alloc + 1, record g { alloc = g.alloc + 1 }))
          → After (Holds P) (alloc g)
      case g h (inl e) = rw e tt
      case g h (inr e) = rw e (step (coins g) g.alloc h)

  allocate_market-Preserves :
      (pair : TradingPairId) (x y : Text)
      → ((m : BTreeMap EntityId TokenBase) (a : ℕ)
          → P m a
          → P (insert (a + 1) (shares_token (a + 1) x y) m) (a + 1 + 1))
      → Preserves (Holds P) (allocate_market pair x y)
  unfolding open_market new_token shares_token
  allocate_market-Preserves pair x y step = record {
    holds = λ g h. case g h (allocate_cases pair x y g);
  }
    where
      case :
          (g : GameBoard)
          → Holds P g
          → (allocate_market pair x y g ≡ panic)
            ⊎ (allocate_market pair x y g ≡ done (pair_of_ids pair g.alloc, opened pair x y g))
          → After (Holds P) (allocate_market pair x y g)
      case g h (inl e) = rw e tt
      case g h (inr e) = rw e (step (coins g) g.alloc h)

  pub create_market-Preserves :
      ((m : BTreeMap EntityId TokenBase) (a : ℕ) (x y : Text)
        → P m a
        → P (insert (a + 1) (shares_token (a + 1) x y) m) (a + 1 + 1))
      → (pair : TradingPairId) → Preserves (Holds P) (create_market pair)
  unfolding create_market
  create_market-Preserves step pair = Preserves-bind _ _ (token_at-Preserves P pair.asset_a) λ a.
      Preserves-bind _ _ (token_at-Preserves P pair.asset_b) λ b.
        allocate_market-Preserves pair (name_of pair.asset_a a) (name_of pair.asset_b b)
          λ m n. step m n (name_of pair.asset_a a) (name_of pair.asset_b b)
