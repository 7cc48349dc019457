-- ===== src/Trade/Moved.antt =====
-- Coins that a call on the board moves (tokens/token_swap.rs and tokens/mod.rs): a transfer, and the
-- swap of a market.
use judica_vm.Base.{
  ℕ, ◌+◌, ◌≡◌, ◌≢◌, refl, ap, subst, arith, Bool, true, false, Option, none, some, Outcome, done,
  panic, ltb, if◌then◌else◌, Bool-cases, Option-cases, inl, inr,
}
use judica_vm.Base.Exec.{pure, lift, continue, ◌>>=◌}
use judica_vm.Base.Map.{BTreeMap, lookup, insert, lookup-insert_self, lookup-insert_ne}
use judica_vm.Base.Order.{nat_ord}
use judica_vm.Entity.{EntityId}
use judica_vm.Tokens.{TokenBase, TokenPointer, balance_check, transfer}
use judica_vm.Tokens.Supply.{when_is, transfer_moves}
use judica_vm.TradingPair.{TradingPairId, trading_pair_ord}
use judica_vm.Board.{
  GameBoard, Game, MarketPair, coins, put_token, token_at, on_token, put_back, balance_of,
}
use judica_vm.Market.{transfer_on, send}

abbrev pub Coins : Type 0
Coins = BTreeMap EntityId TokenBase

abbrev pub held_by : EntityId → Option TokenBase → ℕ
held_by who none = 0
held_by who (some t) = balance_check who t

abbrev pub holding : EntityId → TokenPointer → Coins → ℕ
holding who token c = held_by who (lookup token c)

-- An amount of a token went from one account to another, and no other token and no other balance
-- changed.
abbrev pub IsSent : TokenPointer → EntityId → EntityId → ℕ → Coins → Coins → Type 0
IsSent token from to n c c' =
    ((who : EntityId)
      → holding who token c' + when_is who from n ≡ holding who token c + when_is who to n)
    × ((other : TokenPointer) → other ≢ token → lookup other c' ≡ lookup other c)

-- The two calls of a chain that ends.
module _ {A B : Type 0} where
  pub bind_inv :
      (m : Game A) (f : A → Game B) (g : GameBoard) {b : B} {g' : GameBoard}
      → (m >>= f) g ≡ done (b, g')
      → (a : A) × (g1 : GameBoard) × (m g ≡ done (a, g1)) × (f a g1 ≡ done (b, g'))
  unfolding ◌>>=◌
  bind_inv m f g {b} {g'} h = go (m g) refl h
    where
      go :
          (o : Outcome (A × GameBoard))
          → m g ≡ o
          → continue o f ≡ done (b, g')
          → (a : A) × (g1 : GameBoard) × (m g ≡ done (a, g1)) × (f a g1 ≡ done (b, g'))
      go (done (a, g1)) e h = (a, g1, e, h)
      go panic e h = cc

pub lift_inv :
    {A : Type 0} (o : Outcome A) (g : GameBoard) {a : A} {g' : GameBoard}
    → lift o g ≡ done (a, g')
    → (o ≡ done a) × (g' ≡ g)
unfolding lift
lift_inv (done a) g h = (cc, cc)
lift_inv panic g h = cc

pub token_at_inv :
    (id : TokenPointer) (g : GameBoard) {t : TokenBase} {g' : GameBoard}
    → token_at id g ≡ done (t, g')
    → g' ≡ g
unfolding token_at
token_at_inv id g h = elim (Option-cases (lookup id (coins g))) [
  | inl gone ↦ let no = rw (token_at, gone) at h in cc
  | inr (t, found) ↦ let it = rw (token_at, found) at h in cc
]

pub balance_of_inv :
    (id : TokenPointer) (who : EntityId) (g : GameBoard) {n : ℕ} {g' : GameBoard}
    → balance_of id who g ≡ done (n, g')
    → g' ≡ g
unfolding balance_of pure
balance_of_inv id who g h =
    let (t, g1, e, rest) = bind_inv (token_at id) _ g h in let same = token_at_inv id g e in cc

holding-insert :
    (who : EntityId) (token : TokenPointer) (t : TokenBase) (c : Coins)
    → holding who token (insert token t c) ≡ balance_check who t
holding-insert who token t c = ap (held_by who) (lookup-insert_self token t c)

pub transfer_on-IsSent :
    (token : TokenPointer) (from to : EntityId) (n : ℕ) (g : GameBoard) {g' : GameBoard}
    → transfer_on token from to n g ≡ done (true, g')
    → IsSent token from to n (coins g) (coins g') × (g'.markets ≡ g.markets)
unfolding transfer_on on_token put_back
transfer_on-IsSent token from to n g {g'} h = elim (Option-cases (lookup token (coins g))) [
  | inl gone ↦ let no = rw (transfer_on, on_token, gone) at h in cc
  | inr (t, found) ↦
      let it = rw (transfer_on, on_token, found) at h in sent t (transfer from to n t) found refl it
]
  where
    sent :
        (t : TokenBase) (o : Outcome (Bool × TokenBase))
        → lookup token (coins g) ≡ some t
        → transfer from to n t ≡ o
        → put_back token g o ≡ done (true, g')
        → IsSent token from to n (coins g) (coins g') × (g'.markets ≡ g.markets)
    sent t panic found e h = cc
    sent t (done (b, t')) found e h =
        let paid : b ≡ true = cc in
        let board : put_token token t' g ≡ g' = cc in
        let moved : transfer from to n t ≡ done (true, t') =
          subst (λ x. transfer from to n t ≡ done (x, t')) paid e in
        let (_, _, moves) = transfer_moves from to n t moved in
        subst (λ x. IsSent token from to n (coins g) (coins x) × (x.markets ≡ g.markets)) board
          (
            (
              λ who.
                  let after = holding-insert who token t' (coins g) in
                  let before : holding who token (coins g) ≡ balance_check who t =
                    ap (held_by who) found in
                  let steps = moves who in omega arith,
              λ other off. lookup-insert_ne token other t' (coins g) off,
            ),
            refl,
          )

-- A part of a swap: nothing is sent where the amount is 0.
pub send-IsSent :
    (token : TokenPointer) (from to : EntityId) (n : ℕ) (g : GameBoard) {g' : GameBoard}
    → send token from to n g ≡ done (n, g')
    → IsSent token from to n (coins g) (coins g') × (g'.markets ≡ g.markets) × (n ≡ 0 → g' ≡ g)
unfolding send pure
send-IsSent token from to n g {g'} h = elim (Bool-cases (ltb 0 n)) [
  | inr zeroth ↦
      let it = rw (send, zeroth) at h in
      let none_sent : n ≡ 0 = ground arith in
      let board : g ≡ g' = cc in
      subst
        (λ x.
          IsSent token from to n (coins g) (coins x) × (x.markets ≡ g.markets) × (n ≡ 0 → x ≡ g))
        board ((λ who. ground arith, λ other off. refl), refl, λ e. refl)
  | inl some_sent ↦
      let it = rw (send, some_sent) at h in
      let (sent, g1, e, rest) = bind_inv (transfer_on token from to n) _ g it in
      paid sent g1 e rest some_sent
]
  where
    paid :
        (sent : Bool) (g1 : GameBoard)
        → transfer_on token from to n g ≡ done (sent, g1)
        → ◌≡◌ {A = Outcome (ℕ × GameBoard)} (done ((if sent then n else 0), g1)) (done (n, g'))
        → ltb 0 n ≡ true
        → IsSent token from to n (coins g) (coins g') × (g'.markets ≡ g.markets) × (n ≡ 0 → g' ≡ g)
    paid true g1 e rest some_sent =
        let board : g1 ≡ g' = cc in
        let (moved, kept) = transfer_on-IsSent token from to n g e in
        subst
          (λ x.
            IsSent token from to n (coins g) (coins x) × (x.markets ≡ g.markets) × (n ≡ 0 → x ≡ g))
          board (moved, kept, λ z. absurd (ground arith))
    paid false g1 e rest some_sent = let z : 0 ≡ n = cc in absurd (ground arith)

-- A market that is there is found, and each market stands under its own pair.
abbrev pub IsListed : TradingPairId → MarketPair → GameBoard → Type 0
IsListed pair mkt g = (lookup pair g.markets ≡ some mkt) × (mkt.pair ≡ pair)
