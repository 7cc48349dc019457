-- ===== src/Finish/Shares.antt =====
-- game/mod.rs: the players' shares of the hashrate.
use judica_vm.Base.{
  ℕ, ◌+◌, ◌*◌, ◌/◌, ◌≤◌, ◌<◌, ◌≡◌, refl, sym, ap, ◌∙◌, subst, Option, none, some, [], ◌∷◌, Outcome,
  done, ◌>>=◌, >>=-eq-done, same_done, unwrap, add, mul, u128, ltb, ltb→lt, ltb→le, add-eq-done,
  mul-eq-done, Bool-cases, inl, inr, arith,
}
use judica_vm.Base.Order.{nat_ord}
use judica_vm.Base.Map.{BTreeMap, lookup, insert}
use judica_vm.Entity.{EntityId}
use judica_vm.Nfts.{NftPtr, PowerPlant}
use judica_vm.Board.{GameBoard}
use judica_vm.Plants.{compute_hashrate}
use judica_vm.Finish.{
  denominator, ShareMap, add_rate, accumulate, normalize_shares, get_user_hashrate_share,
}

unfoldable pub numerators : ShareMap → ℕ
numerators [] = 0
numerators ((_, (n, _)) ∷ res) = n + numerators res

-- Every share is a fraction of the denominator.
abbrev pub AllOver : ℕ → ShareMap → Type 0
AllOver d [] = Unit
AllOver d ((_, (_, e)) ∷ res) = (e ≡ d) × AllOver d res

abbrev numerator_or : Option (ℕ × ℕ) → ℕ
numerator_or none = 0
numerator_or (some v) = v.0

numerators-insert :
    (k n d : ℕ) (res : ShareMap)
    → numerators (insert k (n, d) res) + numerator_or (lookup k res) ≡ numerators res + n
unfolding numerators insert lookup
numerators-insert k n d [] = omega arith
numerators-insert k n d ((j, (m, e)) ∷ res) = ground (arith, numerators-insert k n d res)

AllOver-insert : (k n d : ℕ) (res : ShareMap) → AllOver d res → AllOver d (insert k (n, d) res)
unfolding insert
AllOver-insert k n d [] all = (refl, tt)
AllOver-insert k n d ((j, (m, e)) ∷ res) (same, all) = ground (arith, AllOver-insert k n d res)

found_over :
    (k d : ℕ) (res : ShareMap) (v : ℕ × ℕ) → AllOver d res → lookup k res ≡ some v → v.1 ≡ d
unfolding lookup
found_over k d [] v all found = cc
found_over k d ((j, (m, e)) ∷ res) v (same, all) found = ground (arith, found_over k d res v all)

-- What a plant adds to the numerators.
abbrev put_rate : EntityId → ℕ → ShareMap → Option (ℕ × ℕ) → Outcome ShareMap
put_rate player amount res found = elim found [
  | none ↦ done (insert player (amount, denominator) res)
  | some (v, d) ↦ add u128 v amount >>= λ v'. done (insert player (v', d) res)
]

put_rate-numerators :
    (player share : ℕ) (res res' : ShareMap) (found : Option (ℕ × ℕ))
    → AllOver denominator res
    → lookup player res ≡ found
    → put_rate player share res found ≡ done res'
    → (numerators res' ≡ numerators res + share) × AllOver denominator res'
put_rate-numerators player share res res' none all at h =
    let grown = numerators-insert player share denominator res in
    let added = rw at at grown in
    let e = same_done h in
    (
      subst (λ r. numerators r ≡ numerators res + share) e (omega arith),
      subst (λ r. AllOver denominator r) e (AllOver-insert player share denominator res all),
    )
put_rate-numerators player share res res' (some (v, d)) all at h =
    let (n, is_sum, rest) = >>=-eq-done (add u128 v share) _ h in
    let (total, _) = add-eq-done u128 v share is_sum in
    let grown = numerators-insert player n d res in
    let added = rw at at grown in
    let over = found_over player denominator res (v, d) all at in
    let e = same_done rest in
    (
      subst (λ r. numerators r ≡ numerators res + share) e (omega arith),
      subst (λ r. AllOver denominator r) e
          (subst (λ d. AllOver denominator (insert player (n, d) res)) (sym over)
            (AllOver-insert player n denominator res all)),
    )

add_rate-numerators :
    (player rate : ℕ) (res res' : ShareMap)
    → AllOver denominator res
    → add_rate player rate res ≡ done res'
    → (numerators res' ≡ numerators res + rate * denominator) × AllOver denominator res'
unfolding add_rate
add_rate-numerators player rate res res' all h =
    let (share, is_share, rest) = >>=-eq-done (mul u128 rate denominator) _ h in
    let (product, _) = mul-eq-done u128 rate denominator is_share in
    subst (λ n. (numerators res' ≡ numerators res + n) × AllOver denominator res') product
      (put_rate-numerators player share res res' (lookup player res) all refl rest)

grows :
    (total total1 rate sum : ℕ)
    → sum ≡ total * denominator
    → total1 ≡ total + rate
    → sum + rate * denominator ≡ total1 * denominator
grows total total1 rate sum sums more = omega arith

accumulated :
    (g : GameBoard) (plants : BTreeMap NftPtr PowerPlant) (res res' : ShareMap) (total total' : ℕ)
    → AllOver denominator res
    → numerators res ≡ total * denominator
    → accumulate plants g total res ≡ done (total', res')
    → (numerators res' ≡ total' * denominator) × AllOver denominator res'
unfolding accumulate
accumulated g [] res res' total total' all sums h =
    let e = same_done h in
    (
      ap (λ r. numerators r.1) (sym e) ∙ sums ∙ ap (λ r. r.0 * denominator) e,
      subst (λ r. AllOver denominator r.1) e all,
    )
accumulated g ((ptr, plant) ∷ plants) res res' total total' all sums h =
    let (rate, _, h1) = >>=-eq-done (compute_hashrate plant g) _ h in
    let (nft, _, h2) = >>=-eq-done (unwrap (lookup ptr g.nfts.nfts)) _ h1 in
    let (res1, is_share, h3) = >>=-eq-done (add_rate nft.owner rate res) _ h2 in
    let (total1, is_total, h4) = >>=-eq-done (add u128 total rate) _ h3 in
    let (grown, all1) = add_rate-numerators nft.owner rate res res1 all is_share in
    let (more, _) = add-eq-done u128 total rate is_total in
    accumulated g plants res1 res' total1 total' all1
      (grown ∙ grows total total1 rate (numerators res) sums more) h4

numerators-normalize_shares :
    (total : ℕ) (res : ShareMap) → numerators (normalize_shares total res) * total ≤ numerators res
unfolding normalize_shares numerators
numerators-normalize_shares total [] = omega arith
numerators-normalize_shares total ((j, (m, e)) ∷ res) =
    let part : m / total * total ≤ m = grind arith in
    let rest = numerators-normalize_shares total res in grind arith

AllOver-normalize_shares :
    (d total : ℕ) (res : ShareMap) → AllOver d res → AllOver d (normalize_shares total res)
unfolding normalize_shares
AllOver-normalize_shares d total [] all = tt
AllOver-normalize_shares d total ((j, (m, e)) ∷ res) (same, all) =
    (same, AllOver-normalize_shares d total res all)

at_most : (total s : ℕ) → 0 < total → s * total ≤ total * denominator → s ≤ denominator
at_most total s above h = grind arith

-- The shares of the hashrate, where they are computed, are fractions of 100000 and come to 100000 at
-- most.
pub get_user_hashrate_share_bounds :
    (g : GameBoard) (shares : ShareMap)
    → get_user_hashrate_share g ≡ done shares
    → (numerators shares ≤ denominator) × AllOver denominator shares
unfolding get_user_hashrate_share
get_user_hashrate_share_bounds g shares h =
    let ((total, res), ran, rest) = >>=-eq-done (accumulate g.nfts.power_plants g 0 []) _ h in
    let (sums, all) =
      accumulated g g.nfts.power_plants [] res 0 total tt (unfold numerators in refl) ran in
    let e = same_done rest in
    elim (Bool-cases (ltb 0 total)) [
      | inl above ↦
          let at : normalize_shares total res ≡ shares = sym (rw above refl) ∙ e in
          (
            subst (λ r. numerators r ≤ denominator) at
                (at_most total (numerators (normalize_shares total res)) (ltb→lt 0 total above)
                  (omega (arith, numerators-normalize_shares total res))),
            subst (λ r. AllOver denominator r) at
                (AllOver-normalize_shares denominator total res all),
          )
      | inr still ↦
          let at : res ≡ shares = sym (rw still refl) ∙ e in
          (
            subst (λ r. numerators r ≤ denominator) at (omega (arith, ltb→le 0 total still)),
            subst (λ r. AllOver denominator r) at all,
          )
    ]
