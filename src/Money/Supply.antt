-- ===== src/Money/Supply.antt =====
-- The coins are balanced, and a move neither makes nor loses any.
use judica_vm.Base.{
  ℕ, ◌≤◌, ◌+◌, ◌≡◌, ◌≢◌, refl, sym, ap, ◌∙◌, subst, arith, Bool, true, false, some, Outcome, done,
  ◌==◌, inl, inr, Bool-cases, Outcome-cases, ◌>>=◌,
}
use judica_vm.Base.Exec.{Preserves}
use judica_vm.Base.Map.{BTreeMap, lookup, insert, lookup-insert_self, lookup-insert_ne}
use judica_vm.Base.Order.{nat_ord}
use judica_vm.Base.Text.{Text}
use judica_vm.Entity.{EntityId}
use judica_vm.Tokens.{TokenBase, TokenPointer, Price, transfer, mint}
use judica_vm.Tokens.Supply.{IsBalanced, mint_lem, transfer_moves, transfer_refused}
use judica_vm.Market.{transfer_on, mint_on, shares_token}
use judica_vm.Money.{CoinPredicate, Holds, IsInvariant, IsMintInvariant}
use judica_vm.Money.Rules.{on_token-Preserves, alloc-Preserves, create_market-Preserves}

-- Every token's cached total is the sum of its balances, and its id was given out.
abbrev pub IsConsistent : CoinPredicate
IsConsistent m a = (j : ℕ) (t : TokenBase) → lookup j m ≡ some t → IsBalanced t × (j ≤ a)

-- The total of a token.
abbrev pub HasTotal : TokenPointer → ℕ → BTreeMap EntityId TokenBase → Type 0
HasTotal id n m = (t : TokenBase) × (lookup id m ≡ some t) × (t.total ≡ n)

-- The coins are consistent, and a token's supply is this.
abbrev pub SupplyIs : TokenPointer → ℕ → CoinPredicate
SupplyIs id n m a = IsConsistent m a × HasTotal id n m

pub consistent-insert :
    (k a : ℕ) (t : TokenBase) (m : BTreeMap EntityId TokenBase)
    → IsConsistent m a
    → IsBalanced t
    → k ≤ a
    → IsConsistent (insert k t m) a
consistent-insert k a t m h b le j u e = elim (Bool-cases (j == k)) [
  | inl same ↦ ground (arith, lookup-insert_self k t m)
  | inr other ↦ h j u (ground (arith, lookup-insert_ne k j t m))
]

total-insert :
    (id n k : ℕ) (t t' : TokenBase) (m : BTreeMap EntityId TokenBase)
    → HasTotal id n m
    → lookup k m ≡ some t
    → t'.total ≡ t.total
    → HasTotal id n (insert k t' m)
total-insert id n k t t' m (u, e, same) e' total = elim (Bool-cases (id == k)) [
  | inl is ↦ (t', ground (arith, lookup-insert_self k t' m), ground arith)
  | inr other ↦ (u, ground (arith, lookup-insert_ne k id t' m), same)
]

transfer_total_lem :
    (s r a : ℕ) (t t' : TokenBase) (b : Bool)
    → transfer s r a t ≡ done (b, t')
    → IsBalanced t
    → IsBalanced t' × (t'.total ≡ t.total)
transfer_total_lem s r a t t' true e h =
    let (total, held, _) = transfer_moves s r a t e in (omega arith, total)
transfer_total_lem s r a t t' false e h =
    let (_, same) = transfer_refused s r a t e in
    (subst IsBalanced (sym (same refl)) h, ap (λ x. x.total) (same refl))

transfers-Preserves-consistent :
    (id : TokenPointer) (s r : EntityId) (amount : Price)
    → Preserves (Holds IsConsistent) (transfer_on id s r amount)
unfolding transfer_on
transfers-Preserves-consistent id s r amount =
    on_token-Preserves {P = IsConsistent} id (transfer s r amount) λ m a t h e b t' e'.
      let (bal, le) = h id t e in
      let (bal', _) = transfer_total_lem s r amount t t' b e' bal in
      consistent-insert id a t' m h bal' le

abbrev with_unit : TokenBase → Outcome (Unit {0} × TokenBase)
with_unit u = done (tt, u)

minted :
    (to amount : ℕ) (t t' : TokenBase) {b : Unit {0}}
    → (mint to amount t >>= with_unit) ≡ done (b, t')
    → mint to amount t ≡ done t'
minted to amount t t' e = elim (Outcome-cases (mint to amount t)) [
  | inl stop ↦ ground arith
  | inr (u, e') ↦ ground arith
]

mints-Preserves-consistent :
    (id : TokenPointer) (to : EntityId) (amount : Price)
    → Preserves (Holds IsConsistent) (mint_on id to amount)
unfolding mint_on
mints-Preserves-consistent id to amount =
    on_token-Preserves {P = IsConsistent} id (λ t. mint to amount t >>= with_unit)
      λ m a t h e b t' e'.
        let (bal, le) = h id t e in
        let (total, held, _) = mint_lem to amount t (minted to amount t t' e') in
        consistent-insert id a t' m h (omega arith) le

-- No token has the id of the next one, so a new token replaces none.
fresh :
    (m : BTreeMap EntityId TokenBase) (a j : ℕ) (t : TokenBase)
    → IsConsistent m a
    → lookup j m ≡ some t
    → j ≢ a + 1
fresh m a j t h e = let (_, le) = h j t e in omega arith

raised : (m : BTreeMap EntityId TokenBase) (a b : ℕ) → a ≤ b → IsConsistent m a → IsConsistent m b
raised m a b le h j t e = let (bal, low) = h j t e in (bal, omega arith)

consistent-market :
    (m : BTreeMap EntityId TokenBase) (a : ℕ) (x y : Text)
    → IsConsistent m a
    → IsConsistent (insert (a + 1) (shares_token (a + 1) x y) m) (a + 1 + 1)
unfolding shares_token
consistent-market m a x y h =
    consistent-insert (a + 1) (a + 1 + 1) (shares_token (a + 1) x y) m
      (raised m a (a + 1 + 1) (omega arith) h) refl (omega arith)

IsConsistent-IsInvariant : IsInvariant IsConsistent
IsConsistent-IsInvariant = record {
  transfers = transfers-Preserves-consistent;
  allocates = alloc-Preserves λ m a. raised m a (a + 1) (omega arith);
  creates = create_market-Preserves consistent-market;
}

pub IsConsistent-IsMintInvariant : IsMintInvariant IsConsistent
IsConsistent-IsMintInvariant = record {
  base = IsConsistent-IsInvariant;
  mints = mints-Preserves-consistent;
}

transfers-Preserves-supply :
    (n : ℕ) (j id : TokenPointer) (s r : EntityId) (amount : Price)
    → Preserves (Holds (SupplyIs j n)) (transfer_on id s r amount)
unfolding transfer_on
transfers-Preserves-supply n j id s r amount =
    on_token-Preserves {P = SupplyIs j n} id (transfer s r amount) λ m a t h e b t' e'.
      let (bal, le) = h.0 id t e in
      let (bal', same) = transfer_total_lem s r amount t t' b e' bal in
      (consistent-insert id a t' m h.0 bal' le, total-insert j n id t t' m h.1 e same)

supply-market :
    (n : ℕ) (j : TokenPointer) (m : BTreeMap EntityId TokenBase) (a : ℕ) (x y : Text)
    → SupplyIs j n m a
    → SupplyIs j n (insert (a + 1) (shares_token (a + 1) x y) m) (a + 1 + 1)
supply-market n j m a x y (h, (t, e, total)) = (
  consistent-market m a x y h,
  (t, lookup-insert_ne (a + 1) j (shares_token (a + 1) x y) m (fresh m a j t h e) ∙ e, total),
)

pub SupplyIs-IsInvariant : (j : TokenPointer) (n : ℕ) → IsInvariant (SupplyIs j n)
SupplyIs-IsInvariant j n = record {
  transfers = transfers-Preserves-supply n j;
  allocates =
      alloc-Preserves {P = SupplyIs j n} λ m a h. (raised m a (a + 1) (omega arith) h.0, h.1);
  creates = create_market-Preserves (supply-market n j);
}
