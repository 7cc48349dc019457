-- ===== src/Game/Ended.antt =====
-- The messages that are rejected because the game is finished, and the board after them.
use judica_vm.Base.{
  ℕ, ◌≡◌, refl, sym, ap, ◌∙◌, ◌≢◌, inl, inr, Option, none, some, [], ◌∷◌, Outcome, done, panic,
  ◌>>=◌ as and_also, unwrap, subst, no_value, add, mul, u64, u128, leb, ltb, ◌/◌, if◌then◌else◌,
  Outcome-cases, Option-cases,
}
use judica_vm.Base.Exec.{
  Result, ok, err, pure, lift, gets, modify, ◌>>=◌, and_then, Returns, Returns-pure, Returns-bind,
  Returns-then, Given, Returns-gets, Returns-if, returns_rules,
}
use judica_vm.Base.Order.{nat_ord, text_ord}
use judica_vm.Base.Map.{BTreeMap, lookup, get_or_zero}
use judica_vm.Base.Text.{Text}
use judica_vm.Entity.{EntityId}
use judica_vm.Nfts.{NftPtr, PowerPlant}
use judica_vm.Moves
use judica_vm.Moves.{
  GameMove, heartbeat, trade, purchase_nft, list_nft_for_sale, send_tokens, remove_tokens, chat,
  mint_power_plant, super_mint_power_plant, MoveEnvelope, TradeError, FinishReason,
  MoveRejectReason, no_such_user, game_is_finished, LogEvent, move_reject_reason,
}
use judica_vm.Board.{GameBoard}
use judica_vm.Plants.{compute_hashrate, reading}
use judica_vm.Sanitize.{sanitize}
use judica_vm.Finish
use judica_vm.Finish.{ShareMap, add_rate, accumulate, get_user_hashrate_share, find_dominating}
use judica_vm.Game.{
  play, play_from, when_finished, play_in_sequence, play_sanitized, play_inner, or_reject,
  log_rejection, or_sanitize_error, set_sequence, out_of_sequence, add_to_event_log, log_event,
}
use judica_vm.Game.Sequence.{play_stranger}

abbrev pub Answer : Type 0
Answer = Result MoveRejectReason (Unit {0})

-- An answer other than that the game is finished.
abbrev pub IsPlayed : Answer → Type 0
IsPlayed r = (reason : FinishReason) → r ≢ err (game_is_finished reason)

or_reject-IsPlayed : {A : Type 0} (r : Result TradeError A) → Returns IsPlayed (or_reject r)
unfolding or_reject
or_reject-IsPlayed (ok _) = Returns-pure (ok tt) (λ reason h. cc)
or_reject-IsPlayed (err e) = Returns-pure (err (Moves.trade_rejected e)) (λ reason h. cc)

IsPlayed-ok : Returns {S = GameBoard} IsPlayed (pure (ok tt))
IsPlayed-ok = Returns-pure (ok tt) (λ reason h. cc)

play_inner-IsPlayed : (mv : GameMove) (from : EntityId) → Returns IsPlayed (play_inner mv from)
unfolding play_inner
play_inner-IsPlayed heartbeat from = IsPlayed-ok
play_inner-IsPlayed (trade t) from = search (returns_rules, or_reject-IsPlayed)
play_inner-IsPlayed (mint_power_plant m) from = search (returns_rules, or_reject-IsPlayed)
play_inner-IsPlayed (super_mint_power_plant m) from = search (returns_rules, or_reject-IsPlayed)
play_inner-IsPlayed (purchase_nft p) from = search (returns_rules, IsPlayed-ok)
play_inner-IsPlayed (list_nft_for_sale l) from = search (returns_rules, IsPlayed-ok)
play_inner-IsPlayed (send_tokens s) from = search (returns_rules, IsPlayed-ok)
play_inner-IsPlayed (remove_tokens r) from = search (returns_rules, IsPlayed-ok)
play_inner-IsPlayed (chat s) from = search (returns_rules, IsPlayed-ok)

log_rejection-IsPlayed :
    (from : EntityId) (r : Answer) → IsPlayed r → Returns IsPlayed (log_rejection from r)
unfolding log_rejection
log_rejection-IsPlayed from (ok u) other = Returns-pure (ok u) other
log_rejection-IsPlayed from (err e) other = Returns-bind _ _ (λ _. Returns-pure (err e) other)

play_sanitized-IsPlayed :
    (from : EntityId) (time : ℕ) (mv : GameMove) → Returns IsPlayed (play_sanitized from time mv)
unfolding play_sanitized
play_sanitized-IsPlayed from time mv =
    let last =
      Returns-then (play_inner mv from) (log_rejection from) (play_inner-IsPlayed mv from)
        (λ r other. log_rejection-IsPlayed from r other) in
    search (returns_rules, last)

sanitized-IsPlayed :
    (r : Result Moves.SanitizationError GameMove) (from : EntityId) (time : ℕ)
    → Returns IsPlayed (and_then (or_sanitize_error r) (play_sanitized from time))
unfolding and_then or_sanitize_error
sanitized-IsPlayed (ok mv) from time = play_sanitized-IsPlayed from time mv
sanitized-IsPlayed (err e) from time =
    Returns-pure (err (Moves.move_sanitization_error e)) (λ reason h. cc)

play_in_sequence-IsPlayed :
    (from : EntityId) (e : MoveEnvelope) → Returns IsPlayed (play_in_sequence from e)
unfolding play_in_sequence
play_in_sequence-IsPlayed from e =
    let last =
      Returns-gets (λ g. or_sanitize_error (sanitize g e.d))
        (λ sanitized. and_then sanitized (play_sanitized from e.time_millis))
        (λ g. sanitized-IsPlayed (sanitize g e.d) from e.time_millis) in
    Returns-bind (gets (λ g. get_or_zero (lookup from g.player_move_sequence))) _ (λ current.
      Returns-bind (modify (set_sequence from current)) _ (λ _.
        Returns-bind (lift (add u64 current 1)) _ (λ next.
          Returns-if (out_of_sequence current next e.sequence) _ _ IsPlayed-ok
            (Returns-bind (modify (set_sequence from e.sequence)) _ (λ _. last)))))

-- The end of the game does not depend on the event log.
module _ (from : EntityId) (what : LogEvent) (n : ℕ) (g : GameBoard) where
  hashrate-log_event :
      (plant : PowerPlant)
      → compute_hashrate plant (log_event from what n g) ≡ compute_hashrate plant g
  unfolding compute_hashrate log_event
  hashrate-log_event plant = refl

  accumulate-log_event :
      (plants : BTreeMap NftPtr PowerPlant) (total : ℕ) (res : ShareMap)
      → accumulate plants (log_event from what n g) total res ≡ accumulate plants g total res
  unfolding accumulate compute_hashrate log_event
  accumulate-log_event [] total res = refl
  accumulate-log_event ((ptr, plant) ∷ rest) total res = λ i.
      and_also (compute_hashrate plant g) (λ rate.
        and_also (unwrap (lookup ptr g.nfts.nfts)) (λ nft.
          and_also (add_rate nft.owner rate res) (λ res'.
            and_also (add u128 total rate) (λ total'. accumulate-log_event rest total' res' i))))

  shares-log_event : get_user_hashrate_share (log_event from what n g) ≡ get_user_hashrate_share g
  unfolding get_user_hashrate_share log_event
  shares-log_event =
      ap
        (λ o.
          and_also o
            (λ (total, res). done (if ltb 0 total then Finish.normalize_shares total res else res)))
        (accumulate-log_event g.nfts.power_plants 0 [])

  pub game_is_finished-log_event :
      Finish.game_is_finished (log_event from what n g) ≡ Finish.game_is_finished g
  unfolding Finish.game_is_finished log_event
  game_is_finished-log_event = λ i.
      if leb g.finish_time g.elapsed_time
      then done (some Moves.time_expired)
      else and_also (mul u64 3 g.finish_time) (λ thrice.
        if leb (thrice / 4) g.elapsed_time
        then and_also (shares-log_event i) find_dominating
        else done none)

module _ {A S : Type 0} where
  same_pair :
      {x y : A} {s t : S}
      → ◌≡◌ {A = Outcome (A × S)} (done (x, s)) (done (y, t))
      → (x ≡ y) × (s ≡ t)
  same_pair h = (cc, cc)

same_reason :
    {x y : FinishReason}
    → ◌≡◌ {A = Answer} (err (game_is_finished x)) (err (game_is_finished y))
    → x ≡ y
same_reason h = cc

-- The rejection is logged, unless the counter of the log overflows.
logged :
    (from : EntityId) (e : MoveEnvelope) (reason : FinishReason) (g : GameBoard) (n : ℕ)
    → add u64 g.event_log_counter 1 ≡ done n
    → when_finished from e (some reason) g
      ≡ done (
        err (game_is_finished reason),
        log_event from (move_reject_reason (game_is_finished reason)) n g,
      )
unfolding when_finished add_to_event_log ◌>>=◌
logged from e reason g n fits = rw (fits) refl

stopped :
    (from : EntityId) (e : MoveEnvelope) (reason : FinishReason) (g : GameBoard)
    → add u64 g.event_log_counter 1 ≡ panic
    → when_finished from e (some reason) g ≡ panic
unfolding when_finished add_to_event_log ◌>>=◌
stopped from e reason g over = rw (over) refl

when_finished-ended :
    (from : EntityId) (e : MoveEnvelope) (finished : Option FinishReason) (g g' : GameBoard)
    (reason : FinishReason)
    → Finish.game_is_finished g ≡ done finished
    → when_finished from e finished g ≡ done (err (game_is_finished reason), g')
    → Finish.game_is_finished g' ≡ done (some reason)
unfolding when_finished
when_finished-ended from e none g g' reason over ran =
    elim (subst (Given IsPlayed) ran ((play_in_sequence-IsPlayed from e).from g) reason refl) [ ]
when_finished-ended from e (some r) g g' reason over ran =
    elim (Outcome-cases (add u64 g.event_log_counter 1)) [
      | inl stop ↦ no_value (when_finished from e (some r) g) _ (stopped from e r g stop) ran
      | inr (n, fits) ↦
          let (same, board) = same_pair (sym (logged from e r g n fits) ∙ ran) in
          ap Finish.game_is_finished (sym board)
          ∙ game_is_finished-log_event from (move_reject_reason (game_is_finished r)) n g
          ∙ over
          ∙ ap (λ x. done (some x)) (same_reason same)
    ]

module _ (e : MoveEnvelope) (key : Text) (g : GameBoard) (from : EntityId)
    (known : lookup key g.users_by_key ≡ some from) where
  play_halts : Finish.game_is_finished g ≡ panic → play e key g ≡ panic
  unfolding play play_from reading ◌>>=◌
  play_halts stop = rw (known, stop) refl

  play_goes :
      (finished : Option FinishReason)
      → Finish.game_is_finished g ≡ done finished
      → play e key g ≡ when_finished from e finished g
  unfolding play play_from reading ◌>>=◌
  play_goes finished is = rw (known, is) refl

no_user :
    {C : Type 0} {reason : FinishReason} {g g' : GameBoard}
    → ◌≡◌ {A = Outcome (Answer × GameBoard)}
        (done (err no_such_user, g))
        (done (err (game_is_finished reason), g'))
    → C
no_user h = cc

-- A message is rejected because the game is finished only if the board, as the rejection leaves it,
-- is finished for the reason given.
pub play-ended :
    (e : MoveEnvelope) (key : Text) (g g' : GameBoard) (reason : FinishReason)
    → play e key g ≡ done (err (game_is_finished reason), g')
    → Finish.game_is_finished g' ≡ done (some reason)
play-ended e key g g' reason ran = elim (Option-cases (lookup key g.users_by_key)) [
  | inl stranger ↦ no_user (sym (play_stranger e key g stranger) ∙ ran)
  | inr (from, known) ↦ elim (Outcome-cases (Finish.game_is_finished g)) [
    | inl stop ↦ no_value (play e key g) _ (play_halts e key g from known stop) ran
    | inr (finished, is) ↦
        when_finished-ended from e finished g g' reason is
          (sym (play_goes e key g from known finished is) ∙ ran)
  ]
]
