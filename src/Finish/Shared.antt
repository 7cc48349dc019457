-- ===== src/Finish/Shared.antt =====
-- What the distribution of common/mine-with-friends-board/src/game/mod.rs pays on a finished board.
use judica_vm.Base.{
  ℕ, ◌≡◌, refl, sym, ap, ◌∙◌, ◌⊎◌, inl, inr, none, some, [], ◌∷◌, done, panic, unwrap, no_value,
  >>=-eq-done, same_done, Option-cases,
}
use judica_vm.Base.Exec.{Result, ok}
use judica_vm.Base.Map.{BTreeMap, lookup}
use judica_vm.Base.Order.{nat_ord}
use judica_vm.Base.Text.{Text}
use judica_vm.Entity.{EntityId}
use judica_vm.Tokens.{TokenBase, balance_check}
use judica_vm.Moves.{FinishReason, time_expired, dominating_player}
use judica_vm.Board.{GameBoard, coins}
use judica_vm.Finish.{
  Rewards, CloseError, distribution, read_balances, bitcoin_balances, time_expired_rewards,
  domination_rewards,
}
use judica_vm.Finish.Bounty.{paid, time_expired_rewards_lem, domination_rewards_lem}

-- The whole is paid, unless there is nobody.
abbrev pub Shared : ℕ → GameBoard → Rewards → Type 0
Shared funds game dist = (paid dist ≡ funds) ⊎ (game.users_by_key ≡ [])

module _ (game : GameBoard) (k : Text) (v : EntityId) (rest : BTreeMap Text EntityId)
    (users : game.users_by_key ≡ (k, v) ∷ rest) where
  no_bitcoin : lookup game.bitcoin_token_id (coins game) ≡ none → read_balances game ≡ panic
  unfolding read_balances
  no_bitcoin gone = rw (users, gone) refl

  balances_read :
      (btc : TokenBase)
      → lookup game.bitcoin_token_id (coins game) ≡ some btc
      → read_balances game ≡ done ((k, balance_check v btc) ∷ bitcoin_balances rest btc)
  unfolding read_balances bitcoin_balances
  balances_read btc found = rw (users, found) refl

expired-Shared :
    (funds : ℕ) (game : GameBoard) (users : BTreeMap Text EntityId) (balances dist : Rewards)
    → game.users_by_key ≡ users
    → read_balances game ≡ done balances
    → time_expired_rewards funds balances ≡ done dist
    → Shared funds game dist
expired-Shared funds game [] balances dist users read shared = inr users
expired-Shared funds game ((k, v) ∷ rest) balances dist users read shared =
    elim (Option-cases (lookup game.bitcoin_token_id (coins game))) [
      | inl gone ↦ no_value (read_balances game) balances (no_bitcoin game k v rest users gone) read
      | inr (btc, found) ↦
          let is = same_done (sym read ∙ balances_read game k v rest users btc found) in
          inl (
            time_expired_rewards_lem funds k (balance_check v btc) (bitcoin_balances rest btc) dist
              (ap (time_expired_rewards funds) (sym is) ∙ shared))
    ]

-- A finished board shares out the funds.
pub distribution-Shared :
    (game : GameBoard) (funds : ℕ) (host : Text) (reason : FinishReason)
    (r : Result CloseError Rewards)
    → distribution game funds host (some reason) ≡ done r
    → (dist : Rewards) × (r ≡ ok dist) × Shared funds game dist
unfolding distribution
distribution-Shared game funds host time_expired r ran =
    let (balances, read, rest) = >>=-eq-done (read_balances game) _ ran in
    let (dist, shared, is) = >>=-eq-done (time_expired_rewards funds balances) _ rest in
    (
      dist,
      sym (same_done is),
      expired-Shared funds game game.users_by_key balances dist refl read shared,
    )
distribution-Shared game funds host (dominating_player id) r ran =
    let (user, _, rest) = >>=-eq-done (unwrap (lookup id game.users)) _ ran in
    let (dist, shared, is) = >>=-eq-done (domination_rewards funds user.key host) _ rest in
    let (pays, whole) = domination_rewards_lem funds user.key host in
    (dist, sym (same_done is), inl (ap paid (same_done (sym shared ∙ pays)) ∙ whole))
