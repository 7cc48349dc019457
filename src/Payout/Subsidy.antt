-- ===== src/Payout/Subsidy.antt =====
-- A payout mints at most the mining subsidy.
use judica_vm.Base.{
  ℕ, ◌+◌, ◌*◌, ◌/◌, ◌≤◌, ◌≡◌, refl, sym, subst, arith, [], ◌∷◌, done, add, mul, div, inl, inr,
  Outcome-cases, sum, unwrap, fit,
}
use judica_vm.Base.Map.{BTreeMap, lookup, insert, values, get_or_zero, sum-insert}
use judica_vm.Base.Order.{nat_ord}
use judica_vm.Nfts.{NftPtr, PowerPlant, BaseNft}
use judica_vm.Board.{GameBoard}
use judica_vm.Plants.{compute_hashrate}
use judica_vm.Payout.{Shares, reward, rewards, count_shares, add_share}

quotient : (b n : ℕ) → 1 ≤ n → b / n * n ≤ b
quotient b n h = omega arith

times : {a b : ℕ} (n : ℕ) → a ≤ b → a * n ≤ b * n
times n h = grind arith

scaled_down : (total w b c : ℕ) → 1 ≤ total → b ≡ 1024 * w → c ≡ b / total → c / 1024 * total ≤ w
scaled_down total w b c pos eb ec =
    let le : c * total ≤ b = rw ec (quotient b total pos) in
    let less : c / 1024 * 1024 * total ≤ c * total = times total (omega arith) in omega arith

reward_lem :
    (subsidy total v : ℕ) {r : ℕ} → reward subsidy total v ≡ done r → r * total ≤ v * subsidy
unfolding reward mul div
reward_lem subsidy total v h =
    ground
      (arith, scaled_down total (v * subsidy) (v * 1024 * subsidy) (v * 1024 * subsidy / total))

rewards_cons :
    (subsidy total to v : ℕ) (rest : Shares) {amounts : Shares}
    → rewards subsidy total ((to, v) ∷ rest) ≡ done amounts
    → (r : ℕ) × (more : Shares) × (reward subsidy total v ≡ done r)
      × (rewards subsidy total rest ≡ done more)
      × (amounts ≡ (to, r) ∷ more)
unfolding rewards
rewards_cons subsidy total to v rest h = elim (Outcome-cases (reward subsidy total v)) [
  | inl stop ↦ ground arith
  | inr (r, e) ↦ elim (Outcome-cases (rewards subsidy total rest)) [
    | inl stop ↦ ground arith
    | inr (more, e') ↦ (r, more, e, e', ground arith)
  ]
]

add_up :
    (r total v subsidy many whole : ℕ)
    → r * total ≤ v * subsidy
    → many * total ≤ whole * subsidy
    → (r + many) * total ≤ (v + whole) * subsidy
add_up r total v subsidy many whole h k = grind arith

rewards-sum :
    (subsidy total : ℕ) (shares : Shares) {amounts : Shares}
    → rewards subsidy total shares ≡ done amounts
    → sum (values amounts) * total ≤ sum (values shares) * subsidy
unfolding rewards
rewards-sum subsidy total [] h = ground arith
rewards-sum subsidy total ((to, v) ∷ rest) h =
    let (r, more, e, e', is) = rewards_cons subsidy total to v rest h in
    rw is (
      add_up r total v subsidy (sum (values more)) (sum (values rest))
        (reward_lem subsidy total v e) (rewards-sum subsidy total rest e'))

cancel : (total n subsidy : ℕ) → 1 ≤ total → n * total ≤ total * subsidy → n ≤ subsidy
cancel total n subsidy pos h = grind arith

rewards_le_subsidy :
    (subsidy total : ℕ) (shares amounts : Shares)
    → 1 ≤ total
    → sum (values shares) ≡ total
    → rewards subsidy total shares ≡ done amounts
    → sum (values amounts) ≤ subsidy
rewards_le_subsidy subsidy total shares amounts pos whole h =
    cancel total (sum (values amounts)) subsidy pos (
      subst (λ n. sum (values amounts) * total ≤ n * subsidy) whole
        (rewards-sum subsidy total shares h))

count_shares_cons :
    (id : ℕ) (plant : PowerPlant) (rest : BTreeMap NftPtr PowerPlant) (g : GameBoard) (n : ℕ)
    (shares : Shares) {total : ℕ} {out : Shares}
    → count_shares ((id, plant) ∷ rest) g n shares ≡ done (total, out)
    → (share : ℕ) × (nft : BaseNft) × (count_shares rest g
          (n + share)
          (insert nft.owner (get_or_zero (lookup nft.owner shares) + share) shares)
        ≡ done (total, out))
unfolding count_shares add_share add fit
count_shares_cons id plant rest g n shares h = elim (Outcome-cases (compute_hashrate plant g)) [
  | inl stop ↦ ground arith
  | inr (share, e) ↦ elim (Outcome-cases (unwrap (lookup id g.nfts.nfts))) [
    | inl stop ↦ ground arith
    | inr (nft, e') ↦ (share, nft, ground arith)
  ]
]

count_shares-sum :
    (plants : BTreeMap NftPtr PowerPlant) (g : GameBoard) (n : ℕ) (shares : Shares) {total : ℕ}
    {out : Shares}
    → n ≡ sum (values shares)
    → count_shares plants g n shares ≡ done (total, out)
    → total ≡ sum (values out)
unfolding count_shares
count_shares-sum [] g n shares h e = ground arith
count_shares-sum ((id, plant) ∷ rest) g n shares h e =
    let (share, nft, more) = count_shares_cons id plant rest g n shares e in
    count_shares-sum rest g (n + share) _
      (omega (arith, sum-insert nft.owner (get_or_zero (lookup nft.owner shares) + share) shares))
      more

-- When the plants have hashrate, the rewards of a mining round, shared out by the hashrate of each
-- owner's plants, come to the mining subsidy at most.
pub round_le_subsidy :
    (g : GameBoard) (total : ℕ) (shares amounts : Shares)
    → count_shares g.nfts.power_plants g 0 [] ≡ done (total, shares)
    → 1 ≤ total
    → rewards g.mining_subsidy total shares ≡ done amounts
    → sum (values amounts) ≤ g.mining_subsidy
round_le_subsidy g total shares amounts counted pos paid =
    rewards_le_subsidy g.mining_subsidy total shares amounts pos
      (sym (count_shares-sum g.nfts.power_plants g 0 [] refl counted)) paid
