-- ===== src/Sales/Purchase.antt =====
-- `purchase` of nfts/sale.rs: what a purchase of a listed NFT comes to.
use judica_vm.Base.{
  ℕ, ◌+◌, ◌≤◌, ◌≡◌, ◌≢◌, Option-cases, ltb, ltb→lt, ltb→le, refl, ap, ◌∙◌, arith, Bool, true, false,
  none, some, Outcome, done, panic, inl, inr, Bool-cases, same_result, no_value,
}
use judica_vm.Base.Exec.{◌>>=◌, gets, modify, pure}
use judica_vm.Base.Map.{lookup, insert, remove, lookup-insert_self, insert-lookup}
use judica_vm.Base.Order.{nat_ord}
use judica_vm.Entity.{EntityId}
use judica_vm.Tokens.{Currency, Price, TokenBase, transfer, balance_check}
use judica_vm.Tokens.Supply.{transfer_refused, transfer_moves, when_is}
use judica_vm.Nfts.{NftPtr, NftSale, BaseNft, transfer_nft, max_count}
use judica_vm.Board.{GameBoard, coins, put_token, nft_at, on_token, put_back}
use judica_vm.Market.{transfer_on}
use judica_vm.Sales.{purchase, buy_found, sale_stands, hand_over, drop_sale}

-- A sale that stands: its seller still owns the NFT, which has not moved since, the currency is the
-- sale's, and the price is within the limit.
abbrev pub Stands : NftSale → BaseNft → Price → Currency → Type 0
Stands sale nft limit currency =
    (sale.seller ≡ nft.owner)
    × (sale.transfer_count ≡ nft.transfer_count)
    × (currency ≡ sale.currency)
    × (sale.price ≤ limit)

sale_stands-Stands :
    (sale : NftSale) (nft : BaseNft) (limit : Price) (currency : Currency)
    → (Stands sale nft limit currency → sale_stands sale nft limit currency ≡ true)
      × (sale_stands sale nft limit currency ≡ true → Stands sale nft limit currency)
unfolding sale_stands
sale_stands-Stands sale nft limit currency =
    (λ (own, unmoved, right, fair). ground arith, λ h. ground arith)

-- The price went from the buyer to the owner in the sale's currency and no other coin moved, the NFT
-- is the buyer's unless it cannot be moved, and the sale is off the list.
abbrev pub IsSold :
    EntityId → NftPtr → NftSale → BaseNft → TokenBase → GameBoard → GameBoard → Type 0
IsSold buyer asset sale nft t g g' =
    ((t' : TokenBase) × (coins g' ≡ insert sale.currency t' (coins g))
      × (t'.total ≡ t.total)
      × ((who : EntityId)
          → balance_check who t' + when_is who buyer sale.price
            ≡ balance_check who t + when_is who nft.owner sale.price))
    × ((moved : BaseNft) × (lookup asset g'.nfts.nfts ≡ some moved)
        × (nft.transfer_count ≢ max_count → moved.owner ≡ buyer))
    × (g'.nft_sales.sales ≡ remove asset g.nft_sales.sales)

module _ (buyer : EntityId) (asset : NftPtr) (limit : Price) (currency : Currency) (g : GameBoard)
    (sale : NftSale) (nft : BaseNft) (listed : lookup asset g.nft_sales.sales ≡ some sale)
    (held : lookup asset g.nfts.nfts ≡ some nft) where
  purchase_stale :
      sale_stands sale nft limit currency ≡ false
      → purchase buyer asset limit currency g ≡ done (tt, g)
  unfolding purchase buy_found ◌>>=◌ nft_at gets pure
  purchase_stale stale = rw (listed, buy_found, ◌>>=◌, nft_at, held, stale) refl

  -- The purchase of a standing sale, with the result of the payment.
  purchase_stands :
      (t : TokenBase) (o : Outcome (Bool × TokenBase))
      → sale_stands sale nft limit currency ≡ true
      → lookup sale.currency (coins g) ≡ some t
      → transfer buyer nft.owner sale.price t ≡ o
      → purchase buyer asset limit currency g ≡ elim o [
        | panic ↦ panic
        | done (true, t') ↦
            done (tt, drop_sale asset (hand_over asset buyer nft (put_token sale.currency t' g)))
        | done (false, t') ↦ done (tt, put_token sale.currency t' g)
      ]
  unfolding purchase buy_found ◌>>=◌ nft_at gets pure modify transfer_on on_token put_back
  purchase_stands t panic stands found paid =
      rw (listed, buy_found, ◌>>=◌, nft_at, held, stands, transfer_on, on_token, found, paid) refl
  purchase_stands t (done (true, t')) stands found paid =
      rw (listed, buy_found, ◌>>=◌, nft_at, held, stands, transfer_on, on_token, found, paid) refl
  purchase_stands t (done (false, t')) stands found paid =
      rw (listed, buy_found, ◌>>=◌, nft_at, held, stands, transfer_on, on_token, found, paid) refl

  purchase_missing :
      sale_stands sale nft limit currency ≡ true
      → lookup sale.currency (coins g) ≡ none
      → purchase buyer asset limit currency g ≡ panic
  unfolding purchase buy_found ◌>>=◌ nft_at gets transfer_on on_token
  purchase_missing stands found =
      rw (listed, buy_found, ◌>>=◌, nft_at, held, stands, transfer_on, on_token, found) refl

unpaid :
    (id a s r : ℕ) (t t' : TokenBase) (g : GameBoard)
    → lookup id (coins g) ≡ some t
    → transfer s r a t ≡ done (false, t')
    → put_token id t' g ≡ g
unpaid id a s r t t' g found e =
    let (_, same) = transfer_refused s r a t e in
    ap (λ u. put_token id u g) (same refl)
    ∙ ap (λ m. record g { tokens = record g.tokens { tokens = m } })
        (insert-lookup id t (coins g) found)

transfer_nft-owner :
    (to : EntityId) (nft : BaseNft)
    → nft.transfer_count ≢ max_count
    → (transfer_nft to nft).owner ≡ to
unfolding transfer_nft
transfer_nft-owner to nft h = ground arith

paid_purchase-IsSold :
    (buyer : EntityId) (asset : NftPtr) (sale : NftSale) (nft : BaseNft) (t t' : TokenBase)
    (g : GameBoard)
    → transfer buyer nft.owner sale.price t ≡ done (true, t')
    → IsSold buyer asset sale nft t g
        (drop_sale asset (hand_over asset buyer nft (put_token sale.currency t' g)))
unfolding hand_over drop_sale
paid_purchase-IsSold buyer asset sale nft t t' g paid =
    let (total, held, moves) = transfer_moves buyer nft.owner sale.price t paid in
    (
      (t', refl, total, moves),
      (
        transfer_nft buyer nft,
        lookup-insert_self asset (transfer_nft buyer nft) g.nfts.nfts,
        transfer_nft-owner buyer nft,
      ),
      refl,
    )

module _ (buyer : EntityId) (asset : NftPtr) (limit : Price) (currency : Currency)
    (g g' : GameBoard) (sale : NftSale) (nft : BaseNft) (t : TokenBase)
    (listed : lookup asset g.nft_sales.sales ≡ some sale)
    (held : lookup asset g.nfts.nfts ≡ some nft) (found : lookup sale.currency (coins g) ≡ some t)
    (ran : purchase buyer asset limit currency g ≡ done (tt, g')) where
  -- What the payment of a standing sale leads to.
  paid_purchase :
      sale_stands sale nft limit currency ≡ true
      → (sale.price ≤ balance_check buyer t
          → (t' : TokenBase) × (transfer buyer nft.owner sale.price t ≡ done (true, t'))
            × (g' ≡ drop_sale asset (hand_over asset buyer nft (put_token sale.currency t' g))))
        × (¬ (sale.price ≤ balance_check buyer t) → g' ≡ g)
  paid_purchase stands = pay (transfer buyer nft.owner sale.price t) refl
    where
      pay :
          (o : Outcome (Bool × TokenBase))
          → transfer buyer nft.owner sale.price t ≡ o
          → (sale.price ≤ balance_check buyer t
              → (t' : TokenBase) × (transfer buyer nft.owner sale.price t ≡ done (true, t'))
                × (g' ≡ drop_sale asset (hand_over asset buyer nft (put_token sale.currency t' g))))
            × (¬ (sale.price ≤ balance_check buyer t) → g' ≡ g)
      pay panic e =
          no_value _ _
            (purchase_stands buyer asset limit currency g sale nft listed held t _ stands found e)
            ran
      pay (done (true, t')) e =
          let (enough, _) = transfer_refused buyer nft.owner sale.price t e in
          (
            λ rich. (
              t',
              e,
              same_result _ _ _
                  (purchase_stands buyer asset limit currency g sale nft listed held t _ stands
                    found e)
                  ran,
            ),
            λ poor. absurd (poor (ground arith)),
          )
      pay (done (false, t')) e =
          let (short, _) = transfer_refused buyer nft.owner sale.price t e in
          (
            λ rich. absurd (ground arith),
            λ poor.
                same_result _ _ _
                  (purchase_stands buyer asset limit currency g sale nft listed held t _ stands
                    found e)
                  ran
                ∙ unpaid sale.currency sale.price buyer nft.owner t t' g found e,
          )

  -- The purchase of a listed NFT goes through exactly when the sale stands (its seller still owns the
  -- NFT, which has not moved since, the currency is the sale's and the price is within the limit) and
  -- the buyer has the price. Then the price goes from the buyer to the owner in the sale's currency and
  -- no other coin moves, the buyer has the NFT unless it cannot be moved, and the sale is off the list.
  -- Else the board stays as it is.
  pub purchase_lem :
      (Stands sale nft limit currency × (sale.price ≤ balance_check buyer t)
        → IsSold buyer asset sale nft t g g')
      × (¬ (Stands sale nft limit currency × (sale.price ≤ balance_check buyer t)) → g' ≡ g)
  purchase_lem =
      let (there, back) = sale_stands-Stands sale nft limit currency in
      (
        λ (stands, rich).
            let (t', paid, e) = (paid_purchase (there stands)).0 rich in
            rw e (paid_purchase-IsSold buyer asset sale nft t t' g paid),
        λ refused. elim (Bool-cases (sale_stands sale nft limit currency)) [
          | inr stale ↦
              same_result _ _ _
                (purchase_stale buyer asset limit currency g sale nft listed held stale) ran
          | inl stands ↦ (paid_purchase stands).1 (λ rich. refused (back stands, rich))
        ],
      )

transfer_locked :
    (to : EntityId) (nft : BaseNft) → nft.transfer_count ≡ max_count → transfer_nft to nft ≡ nft
unfolding transfer_nft
transfer_locked to nft h = ground arith

-- An NFT whose transfer count is the maximum, as that of a coin lockup, is not sold: after a purchase
-- the board has the same NFT with the same owner.
pub purchase_locked :
    (buyer : EntityId) (asset : NftPtr) (limit : Price) (currency : Currency) (g g' : GameBoard)
    (sale : NftSale) (nft : BaseNft)
    → lookup asset g.nft_sales.sales ≡ some sale
    → lookup asset g.nfts.nfts ≡ some nft
    → nft.transfer_count ≡ max_count
    → purchase buyer asset limit currency g ≡ done (tt, g')
    → lookup asset g'.nfts.nfts ≡ some nft
unfolding hand_over drop_sale
purchase_locked buyer asset limit currency g g' sale nft listed held locked ran =
    elim (Bool-cases (sale_stands sale nft limit currency)) [
      | inr stale ↦
          let same =
            same_result _ _ _
              (purchase_stale buyer asset limit currency g sale nft listed held stale) ran in
          rw same held
      | inl stands ↦ elim (Option-cases (lookup sale.currency (coins g))) [
        | inl gone ↦
            no_value _ _
              (purchase_missing buyer asset limit currency g sale nft listed held stands gone) ran
        | inr (t, found) ↦
            let ends =
              paid_purchase buyer asset limit currency g g' sale nft t listed held found ran
                stands in
            elim (Bool-cases (ltb (balance_check buyer t) sale.price)) [
              | inl short ↦
                  let low = ltb→lt (balance_check buyer t) sale.price short in
                  let same = ends.1 (λ rich. omega arith) in rw same held
              | inr enough ↦
                  let (t', _, e) = ends.0 (ltb→le (balance_check buyer t) sale.price enough) in
                  rw e (
                    lookup-insert_self asset (transfer_nft buyer nft) g.nfts.nfts
                    ∙ ap some (transfer_locked buyer nft locked))
            ]
      ]
    ]
