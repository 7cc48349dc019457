-- ===== src/Tokens/Supply.antt =====
-- Coins are neither made nor lost by a transfer, and every balance moves as it should.
use judica_vm.Base.{
  ℕ, ◌+◌, ◌-◌, ◌≤◌, ◌<◌, ◌≡◌, arith, Bool, true, false, done, u128, ltb, ◌==◌, if◌then◌else◌, sum,
  inl, inr, Bool-cases, Outcome-cases, not, ltb→le,
}
use judica_vm.Base.Order.{nat_ord}
use judica_vm.Base.Map.{
  lookup, insert, values, get_or_zero, lookup-insert_self, lookup-insert_ne, sum-insert,
  lookup-le-sum,
}
use judica_vm.Tokens.{TokenBase, balance_check, mint, burn, transfer}

-- "Cached from the sum(balances.values())"
abbrev pub IsBalanced : TokenBase → Type 0
IsBalanced t = t.total ≡ sum (values t.balances)

-- The amount, if it is this entity's.
abbrev pub when_is : ℕ → ℕ → ℕ → ℕ
when_is who to amount = if who == to then amount else 0

lookup-insert :
    (k j v : ℕ) (t : TokenBase)
    → get_or_zero (lookup j (insert k v t.balances))
      ≡ (if j == k then v else get_or_zero (lookup j t.balances))
lookup-insert k j v t = elim (Bool-cases (j == k)) [
  | inl same ↦ ground (arith, lookup-insert_self k v t.balances)
  | inr other ↦ ground (arith, lookup-insert_ne k j v t.balances)
]

-- A mint adds to one balance and to the total.
pub mint_lem :
    (to amount : ℕ) (t : TokenBase) {t' : TokenBase}
    → mint to amount t ≡ done t'
    → (t'.total ≡ t.total + amount)
      × (sum (values t'.balances) ≡ sum (values t.balances) + amount)
      × ((who : ℕ) → balance_check who t' ≡ balance_check who t + when_is who to amount)
unfolding mint balance_check
mint_lem to amount t h = (
  ground arith,
  ground (arith, sum-insert to (get_or_zero (lookup to t.balances) + amount) t.balances),
  λ who. ground (arith, lookup-insert to who (get_or_zero (lookup to t.balances) + amount) t),
)

pub burn_lem :
    (to amount : ℕ) (t : TokenBase) {t' : TokenBase}
    → burn to amount t ≡ done t'
    → (t'.total + amount ≡ t.total)
      × (sum (values t'.balances) + amount ≡ sum (values t.balances))
      × ((who : ℕ) → balance_check who t' + when_is who to amount ≡ balance_check who t)
unfolding burn balance_check
burn_lem to amount t h = (
  ground arith,
  ground (arith, sum-insert to (get_or_zero (lookup to t.balances) - amount) t.balances),
  λ who. ground (arith, lookup-insert to who (get_or_zero (lookup to t.balances) - amount) t),
)

-- A transfer that goes through is a burn and a mint.
transfer_steps :
    (s r a : ℕ) (t : TokenBase) {t' : TokenBase}
    → transfer s r a t ≡ done (true, t')
    → (b : TokenBase) × (burn s a t ≡ done b) × (mint r a b ≡ done t')
unfolding transfer
transfer_steps s r a t h = elim (Outcome-cases (burn s a t)) [
  | inl stop ↦ ground arith
  | inr (b, e) ↦ elim (Outcome-cases (mint r a b)) [
    | inl stop ↦ ground arith
    | inr (m, e') ↦ (b, e, ground arith)
  ]
]

-- A transfer that returns true moves the amount from the sender to the receiver, who may be the
-- same, touches no other balance and leaves the total and the sum of the balances alone.
pub transfer_moves :
    (s r a : ℕ) (t : TokenBase) {t' : TokenBase}
    → transfer s r a t ≡ done (true, t')
    → (t'.total ≡ t.total)
      × (sum (values t'.balances) ≡ sum (values t.balances))
      × ((who : ℕ) → balance_check who t' + when_is who s a ≡ balance_check who t + when_is who r a)
transfer_moves s r a t h =
    let (b, e, e') = transfer_steps s r a t h in
    let (burnt, less, out) = burn_lem s a t e in
    let (minted, more, inn) = mint_lem r a b e' in
    (omega arith, omega arith, λ who. omega (arith, out who, inn who))

-- A transfer returns false exactly when the sender holds less than the amount, and then it changes
-- nothing.
pub transfer_refused :
    (s r a : ℕ) (t : TokenBase) {done_it : Bool} {t' : TokenBase}
    → transfer s r a t ≡ done (done_it, t')
    → (done_it ≡ not (ltb (balance_check s t) a)) × (done_it ≡ false → t' ≡ t)
unfolding transfer
transfer_refused s r a t h = elim (Bool-cases (ltb (balance_check s t) a)) [
  | inl short ↦ ground arith
  | inr enough ↦ elim (Outcome-cases (burn s a t)) [
    | inl stop ↦ ground arith
    | inr (b, e) ↦ elim (Outcome-cases (mint r a b)) [
      | inl stop ↦ ground arith
      | inr (m, e') ↦ ground arith
    ]
  ]
]

burn_total :
    (s a : ℕ) (t : TokenBase)
    → IsBalanced t
    → a ≤ balance_check s t
    → (b : TokenBase) × (burn s a t ≡ done b)
unfolding burn balance_check
burn_total s a t h le = (
  record t {
    balances = insert s (get_or_zero (lookup s t.balances) - a) t.balances;
    total = t.total - a;
  },
  ground (arith, lookup-le-sum s t.balances),
)

mint_total :
    (r a : ℕ) (t : TokenBase)
    → IsBalanced t
    → t.total + a < u128
    → (m : TokenBase) × (mint r a t ≡ done m)
unfolding mint
mint_total r a t h fits = (
  record t {
    balances = insert r (get_or_zero (lookup r t.balances) + a) t.balances;
    total = t.total + a;
  },
  ground (arith, lookup-le-sum r t.balances),
)

transfer_done :
    (s r a : ℕ) (t : TokenBase) {b m : TokenBase}
    → ltb (balance_check s t) a ≡ false
    → burn s a t ≡ done b
    → mint r a b ≡ done m
    → transfer s r a t ≡ done (true, m)
unfolding transfer
transfer_done s r a t h e e' = ground arith

transfer_short :
    (s r a : ℕ) (t : TokenBase)
    → ltb (balance_check s t) a ≡ true
    → transfer s r a t ≡ done (false, t)
unfolding transfer
transfer_short s r a t h = ground arith

-- A token whose cached total is the sum of its balances, and fits a u128, never panics in a transfer.
pub transfer_total :
    (s r a : ℕ) (t : TokenBase)
    → IsBalanced t
    → t.total < u128
    → (done_it : Bool) × (t' : TokenBase) × (transfer s r a t ≡ done (done_it, t'))
transfer_total s r a t h fits = elim (Bool-cases (ltb (balance_check s t) a)) [
  | inl short ↦ (false, t, transfer_short s r a t short)
  | inr enough ↦
      let (b, e) = burn_total s a t h (ltb→le _ _ enough) in
      let (burnt, less, _) = burn_lem s a t e in
      let (m, e') = mint_total r a b (omega arith) (omega arith) in
      (true, m, transfer_done s r a t enough e e')
]
