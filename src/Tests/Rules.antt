-- ===== src/Tests/Rules.antt =====
-- The theorems about amounts, at work on numbers.
use judica_vm.Base.{
  ℕ, ◌+◌, ◌-◌, ◌*◌, ◌<◌, ◌≤◌, ◌≡◌, refl, arith, true, false, none, List, [], ◌∷◌, done, panic,
}
use judica_vm.Base.Map.{BTreeMap, lookup, insert}
use judica_vm.Base.Order.{nat_ord}
use judica_vm.Base.Text.{Text, ascii}
use judica_vm.Entity.{to_hex, try_from, parsed}
use judica_vm.Entity.RoundTrip.{try_from-to_hex}
use judica_vm.TradingPair.{TradingPairId}
use judica_vm.Tokens.{TokenBase, transfer, balance_check}
use judica_vm.Quote.{sell_quote, buy_quote}
use judica_vm.Quote.Sell.{sell_quote_fair}
use judica_vm.Quote.Buy.{buy_quote_fair, buy_quote_best, buy_quote_drain, buy_quote_total}
use judica_vm.Board.{Callback, coin_lockup}
use judica_vm.Schedule.{time}
use judica_vm.Finish.{Rewards, time_expired_rewards}
use judica_vm.Finish.Bounty.{paid, time_expired_rewards_lem}

try_from-to_hex_example : try_from (to_hex 3_235_774_465) ≡ parsed 3_235_774_465
try_from-to_hex_example = try_from-to_hex 3_235_774_465 (omega arith)

abbrev steel_pair : TradingPairId
steel_pair = record { asset_a = 3_235_774_465; asset_b = 3_235_774_469 }

-- A token of which 1 has 30 and 2 has 12.
abbrev token : TokenBase
token = record { balances = (1, 30) ∷ (2, 12) ∷ []; total = 42; this = 9; nickname = none }

abbrev moved : TokenBase
moved = record token { balances = (1, 10) ∷ (2, 32) ∷ [] }

pays : transfer 1 2 20 token ≡ done (true, moved)
unfolding transfer lookup judica_vm.Tokens.burn judica_vm.Tokens.mint insert
pays = refl

short : transfer 2 1 20 token ≡ done (false, token)
unfolding transfer lookup
short = refl

bought_ten : buy_quote 1000 500 10 ≡ done (21, 10)
unfolding buy_quote judica_vm.Quote.roundup_div
bought_ten = refl

sold_some : sell_quote 500 1000 21 ≡ done (10, 21)
unfolding sell_quote judica_vm.Quote.roundup_div
sold_some = refl

buy_quote_fair_example : (10 ≤ 10) × (10 < 500) × (1000 * 500 ≤ (1000 + 21) * (500 - 10))
buy_quote_fair_example = buy_quote_fair 1000 500 10 bought_ten

buy_quote_best_example :
    (1000 * 500 ≤ (1000 + 21) * (500 - 10))
    × ((y : ℕ) → 1000 * 500 ≤ (1000 + y) * (500 - 10) → 21 ≤ y)
    × (10 ≤ 500)
    × (1000 * 500 ≤ (1000 + 21) * (500 - 10))
    × ((z : ℕ) → z ≤ 500 → 1000 * 500 ≤ (1000 + 21) * (500 - z) → z ≤ 10)
buy_quote_best_example = buy_quote_best 1000 500 10 bought_ten

buy_quote_drain_example : buy_quote 1000 500 500 ≡ panic
buy_quote_drain_example = buy_quote_drain 1000 500

buy_quote_total_example : (sell : ℕ) × (bought : ℕ) × (buy_quote 1000 500 10 ≡ done (sell, bought))
buy_quote_total_example = buy_quote_total 1000 500 10 (omega arith) (omega arith) (omega arith)

sell_quote_fair_example : (21 ≤ 21) × (10 < 500) × (500 * 1000 ≤ (500 - 10) * (1000 + 21))
sell_quote_fair_example = sell_quote_fair 500 1000 21 sold_some

abbrev key_a : Text
key_a = ascii "a"

abbrev others : Rewards
others = (ascii "b", 5) ∷ (ascii "c", 4) ∷ []

-- 100 in the proportions 1, 5 and 4 of 10, with nothing left over; 101 leaves 1 over.
abbrev split_rewards : Rewards
split_rewards = (key_a, 11) ∷ (ascii "b", 50) ∷ (ascii "c", 40) ∷ []

splits : time_expired_rewards 101 ((key_a, 1) ∷ others) ≡ done split_rewards
unfolding time_expired_rewards
splits = refl

time_expired_rewards_lem_example : paid split_rewards ≡ 101
time_expired_rewards_lem_example = time_expired_rewards_lem 101 key_a 1 others split_rewards splits

abbrev lock : ℕ → Callback
lock t = coin_lockup (record { id = 7; time_when_free = t; asset = 9 })

abbrev waiting : BTreeMap ℕ (List Callback)
waiting = (3, lock 3 ∷ []) ∷ (5, lock 5 ∷ []) ∷ (8, lock 8 ∷ []) ∷ []

due : time (lock 5) < 6
unfolding time
due = omega arith
