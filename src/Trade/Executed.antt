-- ===== src/Trade/Executed.antt =====
-- tokens/token_swap.rs: the coins that a trade moves when it is executed.
use judica_vm.Base.{
  ℕ, ◌≡◌, refl, sym, ap, subst, ◌∙◌, arith, Bool, true, false, some, done, leb, ltb, if◌then◌else◌,
  Bool-cases, inl, inr,
}
use judica_vm.Base.Exec.{Result, ok, err, pure, lift, and_then, require, ◌>>=◌}
use judica_vm.Base.Map.{lookup}
use judica_vm.Base.Text.{Text, ascii}
use judica_vm.Entity.{EntityId}
use judica_vm.Tokens.{TokenPointer}
use judica_vm.TradingPair.{TradingPairId, trading_pair_ord, is_normal, normalize}
use judica_vm.Moves.{TradeError, TradeOutcome, insufficient_tokens}
use judica_vm.Board.{GameBoard, MarketPair, coins, balance_of}
use judica_vm.Market.{transfer_on, raw_swap_normal, raw_swap}
use judica_vm.Trade.{swap_helper, return_funds, execute, finish_trade}
use judica_vm.Trade.Swapped.{raw_swap_normal-IsSwapped}
use judica_vm.Trade.Moved.{Coins, IsSent, IsListed, bind_inv, balance_of_inv, transfer_on-IsSent}

-- The two halves of a trade: the player pays the market, and the market pays the player.
abbrev pub IsExchanged :
    MarketPair → EntityId → TokenPointer → TokenPointer → ℕ → ℕ → Coins → Coins → Type 0
IsExchanged mkt s selling buying sold bought c c' =
    (mid : Coins) × IsSent selling s mkt.id sold c mid × IsSent buying mkt.id s bought mid c'

abbrev pub pair_of : TokenPointer → TokenPointer → TradingPairId
pair_of selling buying = record { asset_a = selling; asset_b = buying }

pub normalize_normal : (id : TradingPairId) → is_normal id ≡ true → normalize id ≡ id
unfolding normalize is_normal
normalize_normal id h = rw h refl

pub normalize_flipped :
    (id : TradingPairId)
    → is_normal id ≡ false
    → normalize id ≡ record { asset_a = id.asset_b; asset_b = id.asset_a }
unfolding normalize is_normal
normalize_flipped id h = rw h refl

pub normalize-is_normal : (id : TradingPairId) → is_normal (normalize id) ≡ true
unfolding normalize is_normal
normalize-is_normal id = elim (Bool-cases (leb id.asset_a id.asset_b)) [
  | inl low ↦ rw low low
  | inr high ↦ rw high (ground arith)
]

raw_swap_lem :
    (id : TradingPairId) (a b : ℕ) (s : EntityId)
    → is_normal id ≡ true
    → raw_swap id a b s ≡ raw_swap_normal id a b s
unfolding raw_swap
raw_swap_lem id a b s h =
    ap (λ low. if low then raw_swap_normal id a b s else raw_swap_normal (normalize id) b a s) h

-- Which way round the swap is made.
swap_helper_lem :
    (selling buying : TokenPointer) (n : ℕ) (s : EntityId) (low : Bool)
    → is_normal (pair_of selling buying) ≡ low
    → swap_helper selling buying 0 n s ≡ (
        if low
        then raw_swap (pair_of selling buying) 0 n s
        else raw_swap (normalize (pair_of selling buying)) n 0 s)
unfolding swap_helper
swap_helper_lem selling buying n s low h =
    ap
      (λ b.
        if b
        then raw_swap (pair_of selling buying) 0 n s
        else raw_swap (normalize (pair_of selling buying)) n 0 s)
      h

swap_helper-IsSent :
    (selling buying : TokenPointer) (mkt : MarketPair) (s : EntityId) (n : ℕ) (g : GameBoard)
    {u : Unit {0}} {g' : GameBoard}
    → IsListed (normalize (pair_of selling buying)) mkt g
    → swap_helper selling buying 0 n s g ≡ done (ok u, g')
    → IsSent buying mkt.id s n (coins g) (coins g')
swap_helper-IsSent selling buying mkt s n g {u} {g'} (listed, own) h =
    elim (Bool-cases (is_normal (pair_of selling buying))) [
      | inl low ↦
          let ran : raw_swap_normal (pair_of selling buying) 0 n s g ≡ done (ok u, g') =
            ap (λ m. m g)
              (sym (
                swap_helper_lem selling buying n s true low
                ∙ raw_swap_lem (pair_of selling buying) 0 n s low))
            ∙ h in
          let (mid, _, still, sent, _) =
            raw_swap_normal-IsSwapped (pair_of selling buying) mkt s 0 n g listed ran in
          let asset : mkt.pair.asset_b ≡ buying =
            ap (λ p. p.asset_b) (own ∙ normalize_normal (pair_of selling buying) low) in
          subst (λ c. IsSent buying mkt.id s n c (coins g')) (still refl)
            (subst (λ x. IsSent x mkt.id s n (coins mid) (coins g')) asset sent)
      | inr high ↦
          let pair = normalize (pair_of selling buying) in
          let norm : is_normal pair ≡ true = normalize-is_normal (pair_of selling buying) in
          let ran : raw_swap_normal pair n 0 s g ≡ done (ok u, g') =
            ap (λ m. m g)
              (sym (swap_helper_lem selling buying n s false high ∙ raw_swap_lem pair n 0 s norm))
            ∙ h in
          let there : lookup (normalize pair) g.markets ≡ some mkt =
            ap (λ p. lookup p g.markets) (normalize_normal pair norm) ∙ listed in
          let (mid, sent, _, _, still) = raw_swap_normal-IsSwapped pair mkt s n 0 g there ran in
          let asset : mkt.pair.asset_a ≡ buying =
            ap (λ p. p.asset_a) (own ∙ normalize_flipped (pair_of selling buying) high) in
          subst (λ c. IsSent buying mkt.id s n (coins g) c) (sym (still refl))
            (subst (λ x. IsSent x mkt.id s n (coins g) (coins mid)) asset sent)
    ]

require_inv :
    (b : Bool) (g : GameBoard) {u : Unit {0}} {g' : GameBoard}
    → require b g ≡ done (u, g')
    → (b ≡ true) × (g ≡ g')
unfolding require pure lift
require_inv true g h = (refl, cc)
require_inv false g h = cc

return_funds_inv :
    (selling mkt_id s n : ℕ) (r : Result TradeError Unit) (g : GameBoard) {u : Unit {0}}
    {g' : GameBoard}
    → return_funds selling mkt_id s n r g ≡ done (ok u, g')
    → (r ≡ ok tt) × (g ≡ g')
unfolding return_funds pure
return_funds_inv selling mkt_id s n (ok u) g h = (refl, cc)
return_funds_inv selling mkt_id s n (err e) g h =
    let (v, g1, e1, r1) = bind_inv (transfer_on selling mkt_id s n) (λ v. pure (err e)) g h in cc

execute-IsExchanged :
    (selling buying : TokenPointer) (mkt : MarketPair) (sold bought : ℕ) (s : EntityId)
    (g : GameBoard) {u : Unit {0}} {g' : GameBoard}
    → IsListed (normalize (pair_of selling buying)) mkt g
    → execute selling buying mkt.id sold bought s g ≡ done (ok u, g')
    → IsExchanged mkt s selling buying sold bought (coins g) (coins g')
unfolding execute
execute-IsExchanged selling buying mkt sold bought s g {u} {g'} (listed, own) h =
    let (paid, g1, e1, r1) = bind_inv (transfer_on selling s mkt.id sold) _ g h in
    let (v, g2, e2, r2) = bind_inv (require paid) _ g1 r1 in
    let (res, g3, e3, r3) = bind_inv (swap_helper selling buying 0 bought s) _ g2 r2 in
    let (is_paid, same2) = require_inv paid g1 e2 in
    let (is_ok, same3) = return_funds_inv selling mkt.id s sold res g3 r3 in
    let (sent, kept) =
      transfer_on-IsSent selling s mkt.id sold g
        (subst (λ b. transfer_on selling s mkt.id sold g ≡ done (b, g1)) is_paid e1) in
    let there : lookup (normalize (pair_of selling buying)) g2.markets ≡ some mkt =
      ap (λ b. lookup (normalize (pair_of selling buying)) b.markets) (sym same2)
      ∙ ap (λ ms. lookup (normalize (pair_of selling buying)) ms) kept
      ∙ listed in
    let got =
      swap_helper-IsSent selling buying mkt s bought g2 (there, own)
        (subst (λ r. swap_helper selling buying 0 bought s g2 ≡ done (r, g3)) is_ok e3) in
    (
      coins g1,
      sent,
      subst (λ b. IsSent buying mkt.id s bought (coins g1) (coins b)) same3
          (subst (λ b. IsSent buying mkt.id s bought (coins b) (coins g3)) (sym same2) got),
    )

-- An executed trade whose amounts are known: they are reported, and the coins move.
pub finish_trade-IsExchanged :
    (id : TradingPairId) (mkt : MarketPair) (buying selling n : ℕ) (names : Text × Text)
    (bought sold : ℕ) (s : EntityId) (g : GameBoard) {o : TradeOutcome} {g' : GameBoard}
    → IsListed (normalize (pair_of selling buying)) mkt g
    → finish_trade id mkt (buying, selling, n) names bought sold false s g ≡ done (ok o, g')
    → (o.amount_player_purchased ≡ bought)
      × (o.amount_player_sold ≡ sold)
      × IsExchanged mkt s selling buying sold bought (coins g) (coins g')
unfolding finish_trade
finish_trade-IsExchanged id mkt buying selling n names bought sold s g {o} {g'} listed h =
    let (funds, g1, e1, r1) = bind_inv (balance_of selling s) _ g h in
    let same1 = balance_of_inv selling s g e1 in
    let there =
      subst (λ b. IsListed (normalize (pair_of selling buying)) mkt b) (sym same1) listed in
    let (bought_it, sold_it, moved) = enough (ltb funds sold) g1 r1 there in
    (
      bought_it,
      sold_it,
      subst (λ b. IsExchanged mkt s selling buying sold bought (coins b) (coins g')) same1 moved,
    )
  where
    outcome : TradeOutcome
    outcome = record {
      trading_pair = id;
      asset_player_purchased = names.0;
      amount_player_purchased = bought;
      asset_player_sold = names.1;
      amount_player_sold = sold;
    }

    reported :
        (r : Result TradeError Unit) (g1 g2 : GameBoard)
        → execute selling buying mkt.id sold bought s g1 ≡ done (r, g2)
        → and_then r (λ _. pure (ok outcome)) g2 ≡ done (ok o, g')
        → IsListed (normalize (pair_of selling buying)) mkt g1
        → (o.amount_player_purchased ≡ bought)
          × (o.amount_player_sold ≡ sold)
          × IsExchanged mkt s selling buying sold bought (coins g1) (coins g')
    reported (ok u) g1 g2 e r there =
        let same : outcome ≡ o = cc in
        let board : g2 ≡ g' = cc in
        (
          ap (λ x. x.amount_player_purchased) (sym same),
          ap (λ x. x.amount_player_sold) (sym same),
          subst (λ b. IsExchanged mkt s selling buying sold bought (coins g1) (coins b)) board
              (execute-IsExchanged selling buying mkt sold bought s g1 there e),
        )
    reported (err x) g1 g2 e r there = cc

    enough :
        (short : Bool) (g1 : GameBoard)
        → (if short
              then pure (err (insufficient_tokens (ascii "User has insufficient tokens")))
              else (execute selling buying mkt.id sold bought s >>= λ r.
                  and_then r λ _. pure (ok outcome)))
            g1
          ≡ done (ok o, g')
        → IsListed (normalize (pair_of selling buying)) mkt g1
        → (o.amount_player_purchased ≡ bought)
          × (o.amount_player_sold ≡ sold)
          × IsExchanged mkt s selling buying sold bought (coins g1) (coins g')
    enough true g1 r there = cc
    enough false g1 r there =
        let (res, g2, e2, r2) = bind_inv (execute selling buying mkt.id sold bought s) _ g1 r in
        reported res g1 g2 e2 r2 there
