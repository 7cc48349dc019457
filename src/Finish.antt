-- ===== src/Finish.antt =====
-- The end of the game in common/mine-with-friends-board/src/game/mod.rs: who dominates, when the
-- game is finished, and how the bounty is then distributed.
pub mod Bounty
pub mod Shared
pub mod Shares
use judica_vm.Base.{
  ℕ, ◌+◌, ◌-◌, ◌*◌, ◌/◌, ◌%◌, Bool, true, false, Option, none, some, List, [], ◌∷◌, Outcome, done,
  panic, ◌>>=◌, unwrap, add, sub, mul, div, u64, u128, leb, ltb, ◌==◌, if◌then◌else◌, length,
}
use judica_vm.Base.Exec.{Result, ok, err}
use judica_vm.Base.Order.{nat_ord}
use judica_vm.Base.Map.{BTreeMap, lookup, insert}
use judica_vm.Base.Text.{Text}
use judica_vm.Entity.{EntityId}
use judica_vm.Tokens.{TokenBase, balance_check}
use judica_vm.Nfts.{PowerPlant, NftPtr}
use judica_vm.Moves.{FinishReason, time_expired, dominating_player}
use judica_vm.Board.{GameBoard, coins}
use judica_vm.Plants.{compute_hashrate}

abbrev pub denominator : ℕ
denominator = 100_000

-- Numerator and denominator of a player's share.
abbrev pub ShareMap : Type 0
ShareMap = BTreeMap EntityId (ℕ × ℕ)

-- The `match res.get_mut(&player)`.
unfoldable pub add_rate : EntityId → ℕ → ShareMap → Outcome ShareMap
unfolding mul add
add_rate player rate res = do
  amount ← mul u128 rate denominator
  elim (lookup player res) [
    | none ↦ done (insert player (amount, denominator) res)
    | some (v, d) ↦ add u128 v amount >>= λ v'. done (insert player (v', d) res)
  ]

unfoldable pub accumulate :
    BTreeMap NftPtr PowerPlant → GameBoard → ℕ → ShareMap → Outcome (ℕ × ShareMap)
unfolding compute_hashrate add_rate add
accumulate [] g total res = done (total, res)
accumulate ((ptr, plant) ∷ rest) g total res = do
  rate ← compute_hashrate plant g
  nft ← unwrap (lookup ptr g.nfts.nfts)
  res' ← add_rate nft.owner rate res
  total' ← add u128 total rate
  accumulate rest g total' res'

unfoldable pub normalize_shares : ℕ → ShareMap → ShareMap
normalize_shares total [] = []
normalize_shares total ((k, (v, d)) ∷ rest) = (k, (v / total, d)) ∷ normalize_shares total rest

-- `get_user_hashrate_share`
unfoldable pub get_user_hashrate_share : GameBoard → Outcome ShareMap
unfolding accumulate normalize_shares
get_user_hashrate_share g = do
  (total, res) ← accumulate g.nfts.power_plants g 0 []
  done (if ltb 0 total then normalize_shares total res else res)

-- The `find_map`: the first player with half of the hashrate or more.
unfoldable pub find_dominating : ShareMap → Outcome (Option FinishReason)
unfolding mul
find_dominating [] = done none
find_dominating ((k, (v, d)) ∷ rest) = do
  twice ← mul u128 v 2
  if leb d twice then done (some (dominating_player k)) else find_dominating rest

-- `game_is_finished`
unfoldable pub game_is_finished : GameBoard → Outcome (Option FinishReason)
unfolding mul get_user_hashrate_share find_dominating
game_is_finished g = if leb g.finish_time g.elapsed_time then done (some time_expired) else do
  thrice ← mul u64 3 g.finish_time
  if leb (thrice / 4) g.elapsed_time
      then get_user_hashrate_share g >>= find_dominating
      else done none

pub data CloseError : Type 0 where
  game_not_finished : CloseError

abbrev pub Rewards : Type 0
Rewards = List (Text × ℕ)

-- Each user's key and balance of bitcoin.
unfoldable pub bitcoin_balances : BTreeMap Text EntityId → TokenBase → Rewards
unfolding balance_check
bitcoin_balances [] btc = []
bitcoin_balances ((k, v) ∷ rest) btc = (k, balance_check v btc) ∷ bitcoin_balances rest btc

-- `self.tokens[..]` in the closure: it is evaluated once for each user.
unfoldable pub read_balances : GameBoard → Outcome Rewards
unfolding bitcoin_balances
read_balances g = elim g.users_by_key [
  | [] ↦ done []
  | _ ∷ _ ↦ unwrap (lookup g.bitcoin_token_id (coins g)) >>= λ btc.
      done (bitcoin_balances g.users_by_key btc)
]

-- `sum` of an iterator, in a type with `w` values.
unfoldable pub sum_in : ℕ → ℕ → Rewards → Outcome ℕ
unfolding add
sum_in w acc [] = done acc
sum_in w acc ((_, v) ∷ rest) = add w acc v >>= λ acc'. sum_in w acc' rest

unfoldable pub even_split : ℕ → ℕ → Rewards → Outcome Rewards
unfolding div
even_split bounty players [] = done []
even_split bounty players ((k, _) ∷ rest) = do
  share ← div bounty players
  more ← even_split bounty players rest
  done ((k, share) ∷ more)

-- `((v * bounty as u128) / total) as u64`
unfoldable pub pro_rata : ℕ → ℕ → Rewards → Outcome Rewards
unfolding mul div
pro_rata bounty total [] = done []
pro_rata bounty total ((k, v) ∷ rest) = do
  scaled ← mul u128 v bounty
  share ← div scaled total
  more ← pro_rata bounty total rest
  done ((k, share % u64) ∷ more)

-- What the divisions leave over goes to the first player.
unfoldable pub give_excess : ℕ → Rewards → Outcome Rewards
unfolding add
give_excess excess [] = done []
give_excess excess ((k, v) ∷ rest) = do v' ← add u64 v excess; done ((k, v') ∷ rest)

unfoldable pub time_expired_rewards : ℕ → Rewards → Outcome Rewards
unfolding sum_in even_split pro_rata give_excess sub
time_expired_rewards bounty balances = do
  total ← sum_in u128 0 balances
  rewards ←
      if total == 0
      then even_split bounty (length balances % u64) balances
      else pro_rata bounty total balances
  paid ← sum_in u64 0 rewards
  excess ← sub bounty paid
  give_excess excess rewards

unfoldable pub domination_rewards : ℕ → Text → Text → Outcome Rewards
unfolding sub
domination_rewards bounty key host_key = do
  let twentyfivepercent = bounty / 4
  rest ← sub bounty twentyfivepercent
  done ((key, rest) ∷ (host_key, twentyfivepercent) ∷ [])

unfoldable pub distribution :
    GameBoard → ℕ → Text → Option FinishReason → Outcome (Result CloseError Rewards)
unfolding read_balances time_expired_rewards domination_rewards
distribution g bounty host_key none = done (err game_not_finished)
distribution g bounty host_key (some time_expired) = do
  balances ← read_balances g
  rewards ← time_expired_rewards bounty balances
  done (ok rewards)
distribution g bounty host_key (some (dominating_player id)) = do
  user ← unwrap (lookup id g.users)
  rewards ← domination_rewards bounty user.key host_key
  done (ok rewards)

-- `get_close_distribution`
unfoldable pub get_close_distribution : GameBoard → ℕ → Text → Outcome (Result CloseError Rewards)
unfolding game_is_finished distribution
get_close_distribution g bounty host_key = do
  finished ← game_is_finished g
  distribution g bounty host_key finished
