-- ===== src/Quote/Buy.antt =====
-- What `buy_quote` promises, and where it panics.
use judica_vm.Base.{
  ℕ, ◌+◌, ◌-◌, ◌*◌, ◌≤◌, ◌<◌, ◌≡◌, arith, done, panic, u128, Outcome-cases, inl, inr,
}
use judica_vm.Quote.{roundup_div, buy_quote}
use judica_vm.Quote.Round.{IsCeil, IsCeil-le, roundup_div-IsCeil, roundup_div-of_lt}

-- The two divisions, and the quantities that they leave.
pub buy_quote_inv :
    (s b x : ℕ) {sell bought : ℕ}
    → buy_quote s b x ≡ done (sell, bought)
    → (kept : ℕ) × (x ≤ b)
      × IsCeil (s * b) (b - x) (sell + s)
      × (bought + kept ≡ b)
      × IsCeil (s * b) (s + sell) kept
unfolding buy_quote
buy_quote_inv s b x {sell} {bought} h = elim (Outcome-cases (roundup_div (s * b) (b - x))) [
  | inl stop ↦ ground arith
  | inr (needed, e) ↦ elim (Outcome-cases (roundup_div (s * b) (s + (needed - s)))) [
    | inl stop ↦ ground arith
    | inr (kept, e') ↦ (
      kept,
      ground arith,
      ground (arith, roundup_div-IsCeil (s * b) (b - x) e),
      ground arith,
      ground (arith, roundup_div-IsCeil (s * b) (s + (needed - s)) e'),
    )
  ]
]

-- A buyer receives what was asked for or more and never the whole reserve, and the product of the
-- reserves does not fall.
pub buy_quote_fair :
    (s b x : ℕ) {sell bought : ℕ}
    → buy_quote s b x ≡ done (sell, bought)
    → (x ≤ bought) × (bought < b) × (s * b ≤ (s + sell) * (b - bought))
buy_quote_fair s b x {sell} {bought} h =
    let (kept, asked, first, split, second) = buy_quote_inv s b x h in
    let e : b - bought ≡ kept = omega arith in
    let low : 1 ≤ kept = grind arith in
    (
      omega (arith, IsCeil-le (s * b) (s + sell) kept (b - x) second (omega arith)),
      omega arith,
      rw e (omega arith),
    )

-- The price keeps the product for the amount asked, and no smaller one does. The amount handed out is
-- within the reserve and keeps the product at that price, and no larger one does.
pub buy_quote_best :
    (s b x : ℕ) {sell bought : ℕ}
    → buy_quote s b x ≡ done (sell, bought)
    → (s * b ≤ (s + sell) * (b - x))
      × ((y : ℕ) → s * b ≤ (s + y) * (b - x) → sell ≤ y)
      × (bought ≤ b)
      × (s * b ≤ (s + sell) * (b - bought))
      × ((z : ℕ) → z ≤ b → s * b ≤ (s + sell) * (b - z) → z ≤ bought)
buy_quote_best s b x {sell} {bought} h =
    let (kept, asked, first, split, second) = buy_quote_inv s b x h in
    let e : b - bought ≡ kept = omega arith in
    (
      omega arith,
      λ y keeps. omega (arith, IsCeil-le (s * b) (b - x) (sell + s) (y + s) first (omega arith)),
      omega arith,
      rw e (omega arith),
      λ z le keeps. omega (arith, IsCeil-le (s * b) (s + sell) kept (b - z) second (omega arith)),
    )

-- Buying exactly the reserve divides by zero, although the market lets the amount pass.
pub buy_quote_drain : (s b : ℕ) → buy_quote s b b ≡ panic
buy_quote_drain s b = elim (Outcome-cases (buy_quote s b b)) [
  | inl stop ↦ stop
  | inr ((sell, bought), e) ↦
      let (kept, asked, first, split, second) = buy_quote_inv s b b e in absurd (omega arith)
]

le-mul : (k n : ℕ) → 1 ≤ n → k ≤ k * n
le-mul k n h = grind arith

buy_quote_steps :
    (s b x : ℕ) {needed kept : ℕ}
    → x ≤ b
    → s * b + needed < u128
    → roundup_div (s * b) (b - x) ≡ done needed
    → s ≤ needed
    → roundup_div (s * b) (s + (needed - s)) ≡ done kept
    → kept ≤ b
    → buy_quote s b x ≡ done (needed - s, b - kept)
unfolding buy_quote
buy_quote_steps s b x asked fits e enough e' high = ground arith

-- Short of the reserve, where the numbers fit the type, a purchase is quoted.
pub buy_quote_total :
    (s b x : ℕ)
    → 1 ≤ s
    → x < b
    → s * b + b + s + s * b < u128
    → (sell : ℕ) × (bought : ℕ) × (buy_quote s b x ≡ done (sell, bought))
buy_quote_total s b x hs hx fits =
    let (needed, e, first) = roundup_div-of_lt (s * b) (b - x) (omega arith) (omega arith) in
    let enough : s ≤ needed = grind arith in
    let small : needed ≤ s * b =
      IsCeil-le (s * b) (b - x) needed (s * b) first (le-mul (s * b) (b - x) (omega arith)) in
    let after : s + (needed - s) ≡ needed = omega arith in
    let (kept, e', second) = roundup_div-of_lt (s * b) needed (omega arith) (omega arith) in
    let high : kept ≤ b = IsCeil-le (s * b) needed kept b second (grind arith) in
    (
      needed - s,
      b - kept,
      buy_quote_steps s b x (omega arith) (omega arith) e enough (rw after e') high,
    )
