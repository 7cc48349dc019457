-- ===== src/Quote/Sell.antt =====
-- What `sell_quote` promises.
use judica_vm.Base.{
  ℕ, ◌+◌, ◌-◌, ◌*◌, ◌≤◌, ◌<◌, ◌≡◌, arith, done, panic, u128, Outcome-cases, inl, inr,
}
use judica_vm.Quote.{roundup_div, sell_quote}
use judica_vm.Quote.Round.{IsCeil, IsCeil-le, roundup_div-IsCeil, roundup_div-of_lt}

-- The two divisions, and the quantities that they leave.
pub sell_quote_inv :
    (b s a : ℕ) {buy charged : ℕ}
    → sell_quote b s a ≡ done (buy, charged)
    → (kept : ℕ) × IsCeil (b * s) (s + a) kept
      × (buy + kept ≡ b)
      × IsCeil (b * s) kept (charged + s)
unfolding sell_quote
sell_quote_inv b s a {buy} {charged} h = elim (Outcome-cases (roundup_div (b * s) (s + a))) [
  | inl stop ↦ ground arith
  | inr (kept, e) ↦ elim (Outcome-cases (roundup_div (b * s) (b - (b - kept)))) [
    | inl stop ↦ ground arith
    | inr (needed, e') ↦ (
      kept,
      roundup_div-IsCeil (b * s) (s + a) e,
      ground arith,
      ground (arith, roundup_div-IsCeil (b * s) (b - (b - kept)) e'),
    )
  ]
]

-- A seller pays at most what was offered, never receives the whole reserve, and the product of the
-- reserves does not fall.
pub sell_quote_fair :
    (b s a : ℕ) {buy charged : ℕ}
    → sell_quote b s a ≡ done (buy, charged)
    → (charged ≤ a) × (buy < b) × (b * s ≤ (b - buy) * (s + charged))
sell_quote_fair b s a {buy} {charged} h =
    let (kept, first, split, second) = sell_quote_inv b s a h in
    let e : b - buy ≡ kept = omega arith in
    (
      omega (arith, IsCeil-le (b * s) kept (charged + s) (a + s) second (omega arith)),
      omega arith,
      rw e (omega arith),
    )

-- The amount handed out is the most that keeps the product at the amount offered, and the charge is
-- the least that keeps it for the amount handed out.
pub sell_quote_best :
    (b s a : ℕ) {buy charged : ℕ}
    → sell_quote b s a ≡ done (buy, charged)
    → ((x : ℕ) → x ≤ b → b * s ≤ (b - x) * (s + a) → x ≤ buy)
      × ((y : ℕ) → b * s ≤ (b - buy) * (s + y) → charged ≤ y)
sell_quote_best b s a {buy} {charged} h =
    let (kept, first, split, second) = sell_quote_inv b s a h in
    (
      λ x le keeps. omega (arith, IsCeil-le (b * s) (s + a) kept (b - x) first keeps),
      λ y keeps.
          let e : b - buy ≡ kept = omega arith in
          let enough : b * s ≤ kept * (s + y) = rw e at keeps in
          omega (arith, IsCeil-le (b * s) kept (charged + s) (y + s) second (omega arith)),
    )

-- A sale into a market with an empty reserve divides by zero.
pub sell_quote_empty : (b s a : ℕ) → b * s ≡ 0 → sell_quote b s a ≡ panic
sell_quote_empty b s a h = elim (Outcome-cases (sell_quote b s a)) [
  | inl stop ↦ stop
  | inr ((buy, charged), e) ↦
      let (kept, first, split, second) = sell_quote_inv b s a e in
      absurd (omega (arith, IsCeil-le (b * s) (s + a) kept 0 first (omega arith)))
]

-- Where both reserves hold something and the product fits the type, a sale is quoted.
pub sell_quote_total :
    (b s a : ℕ)
    → 1 ≤ b
    → 1 ≤ s
    → b * s + b + s + a < u128
    → (buy : ℕ) × (charged : ℕ) × (sell_quote b s a ≡ done (buy, charged))
unfolding sell_quote
sell_quote_total b s a hb hs fits =
    let (kept, e, first) = roundup_div-of_lt (b * s) (s + a) (omega arith) (omega arith) in
    let low : 1 ≤ kept = grind arith in
    let high : kept ≤ b = IsCeil-le (b * s) (s + a) kept b first (omega arith) in
    let back : b - (b - kept) ≡ kept = omega arith in
    let (needed, e', second) = roundup_div-of_lt (b * s) kept low (omega arith) in
    let enough : s ≤ needed = grind arith in (b - kept, needed - s, ground arith)
