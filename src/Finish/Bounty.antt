-- ===== src/Finish/Bounty.antt =====
-- The bounty is paid out whole.
use judica_vm.Base.{
  ℕ, ◌+◌, ◌-◌, ◌/◌, ◌%◌, ◌≡◌, subst, ap, arith, Bool-cases, [], ◌∷◌, Outcome, done, add, sub, mul,
  div, u64, u128, fit, length, inl, inr, Outcome-cases, add-eq-done, sub-eq-done, >>=-eq-done, ◌==◌,
  if◌then◌else◌,
}
use judica_vm.Base.Text.{Text}
use judica_vm.Finish.{
  Rewards, sum_in, even_split, pro_rata, give_excess, time_expired_rewards, domination_rewards,
}

-- What is paid out.
abbrev pub paid : Rewards → ℕ
paid [] = 0
paid ((k, v) ∷ rest) = v + paid rest

sum_in_lem : (w acc : ℕ) (r : Rewards) {n : ℕ} → sum_in w acc r ≡ done n → n ≡ acc + paid r
unfolding sum_in
sum_in_lem w acc [] h = ground arith
sum_in_lem w acc ((k, v) ∷ rest) h =
    let (acc', e, more) = >>=-eq-done (add w acc v) (λ a. sum_in w a rest) h in
    let (is, _) = add-eq-done w acc v e in let rest_is = sum_in_lem w acc' rest more in omega arith

give_excess_lem :
    (x : ℕ) (k : Text) (v : ℕ) (r : Rewards) {r' : Rewards}
    → give_excess x ((k, v) ∷ r) ≡ done r'
    → paid r' ≡ x + paid ((k, v) ∷ r)
unfolding give_excess add fit
give_excess_lem x k v r h = ground arith

-- When a player dominates, that player and the host get the whole bounty between them, and the host
-- gets the quarter, rounded down.
pub domination_rewards_lem :
    (bounty : ℕ) (key host : Text)
    → domination_rewards bounty key host
        ≡ done ((key, bounty - bounty / 4) ∷ (host, bounty / 4) ∷ [])
      × (paid ((key, bounty - bounty / 4) ∷ (host, bounty / 4) ∷ []) ≡ bounty)
unfolding domination_rewards sub
domination_rewards_lem bounty key host = (ground arith, omega arith)

even_split_cons :
    (bounty players v : ℕ) (k : Text) (r : Rewards) {r' : Rewards}
    → even_split bounty players ((k, v) ∷ r) ≡ done r'
    → (w : ℕ) × (more : Rewards) × (r' ≡ (k, w) ∷ more)
unfolding even_split
even_split_cons bounty players v k r h = elim (Outcome-cases (div bounty players)) [
  | inl stop ↦ ground arith
  | inr (share, e) ↦ elim (Outcome-cases (even_split bounty players r)) [
    | inl stop ↦ ground arith
    | inr (more, e') ↦ (share, more, ground arith)
  ]
]

pro_rata_cons :
    (bounty total v : ℕ) (k : Text) (r : Rewards) {r' : Rewards}
    → pro_rata bounty total ((k, v) ∷ r) ≡ done r'
    → (w : ℕ) × (more : Rewards) × (r' ≡ (k, w) ∷ more)
unfolding pro_rata
pro_rata_cons bounty total v k r h = elim (Outcome-cases (mul u128 v bounty)) [
  | inl stop ↦ ground arith
  | inr (scaled, e) ↦ elim (Outcome-cases (div scaled total)) [
    | inl stop ↦ ground arith
    | inr (share, e') ↦ elim (Outcome-cases (pro_rata bounty total r)) [
      | inl stop ↦ ground arith
      | inr (more, e'') ↦ (share % u64, more, ground arith)
    ]
  ]
]

-- The rewards before the excess is given, which begin with the first player's.
abbrev shares_of : ℕ → ℕ → Text → ℕ → Rewards → Outcome Rewards
shares_of bounty total key v others =
    if total == 0
    then even_split bounty (length ((key, v) ∷ others) % u64) ((key, v) ∷ others)
    else pro_rata bounty total ((key, v) ∷ others)

shares_cons :
    (bounty total : ℕ) (key : Text) (v : ℕ) (others : Rewards) {r : Rewards}
    → shares_of bounty total key v others ≡ done r
    → (w : ℕ) × (more : Rewards) × (r ≡ (key, w) ∷ more)
shares_cons bounty total key v others h = elim (Bool-cases (total == 0)) [
  | inl none ↦ even_split_cons bounty (length ((key, v) ∷ others) % u64) v key others (ground arith)
  | inr some ↦ pro_rata_cons bounty total v key others (ground arith)
]

settle :
    (bounty : ℕ) (r : Rewards) (key : Text) (w : ℕ) (more : Rewards) {r' : Rewards} {n x : ℕ}
    → r ≡ (key, w) ∷ more
    → sum_in u64 0 r ≡ done n
    → sub bounty n ≡ done x
    → give_excess x r ≡ done r'
    → paid r' ≡ bounty
settle bounty r key w more {r'} {n} {x} is counted left given =
    let total = sum_in_lem u64 0 r counted in
    let (whole, _, _) = sub-eq-done bounty n left in
    let done_it = give_excess_lem x key w more (subst (λ s. give_excess x s ≡ done r') is given) in
    let same : paid r ≡ paid ((key, w) ∷ more) = ap paid is in omega arith

-- When the time expires with a player or more, the rewards come to the bounty exactly, whatever the
-- balances are: what the divisions leave goes to the first player.
pub time_expired_rewards_lem :
    (bounty : ℕ) (key : Text) (v : ℕ) (others : Rewards) (rewards : Rewards)
    → time_expired_rewards bounty ((key, v) ∷ others) ≡ done rewards
    → paid rewards ≡ bounty
unfolding time_expired_rewards
time_expired_rewards_lem bounty key v others rewards h =
    elim (Outcome-cases (sum_in u128 0 ((key, v) ∷ others))) [
      | inl stop ↦ ground arith
      | inr (total, e) ↦ elim (Outcome-cases (shares_of bounty total key v others)) [
        | inl stop ↦ ground arith
        | inr (r, e1) ↦ elim (Outcome-cases (sum_in u64 0 r)) [
          | inl stop ↦ ground arith
          | inr (n, e2) ↦ elim (Outcome-cases (sub bounty n)) [
            | inl stop ↦ ground arith
            | inr (x, e3) ↦
                let (w, more, is) = shares_cons bounty total key v others e1 in
                settle bounty r key w more is e2 e3 (ground arith)
          ]
        ]
      ]
    ]
