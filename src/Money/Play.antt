-- ===== src/Money/Play.antt =====
-- `play` keeps every invariant of the coins that the making of coins keeps too.
use judica_vm.Base.{ℕ, Option, none, some}
use judica_vm.Base.Exec.{
  Result, ok, err, Preserves, Preserves-modify, Preserves-pure, Preserves-bind, preserves_rules,
  modify,
}
use judica_vm.Base.Text.{Text}
use judica_vm.Entity.{EntityId}
use judica_vm.Moves.{
  GameMove, MoveEnvelope, FinishReason, MoveRejectReason, LogEvent, game_move, no_such_user,
}
use judica_vm.Clock.{put_tick, raise_time, update_current_time}
use judica_vm.Callbacks.{run}
use judica_vm.Game.{
  log_event, add_to_event_log, log_rejection, set_sequence, play_sanitized, play_in_sequence,
  when_finished, play_from, play,
}
use judica_vm.Money.{CoinPredicate, Holds, IsMintInvariant}
use judica_vm.Money.Moves.{reading-Preserves, play_inner-Preserves}
use judica_vm.Money.Events.{run-Preserves}

module _ {P : CoinPredicate} (inv : IsMintInvariant P) where
  put_tick-Preserves : (from : EntityId) (t : ℕ) → Preserves (Holds P) (modify (put_tick from t))
  unfolding put_tick
  put_tick-Preserves from t = Preserves-modify (put_tick from t) (λ g h. h)

  raise_time-Preserves : (m : ℕ) → Preserves (Holds P) (modify (raise_time m))
  unfolding raise_time
  raise_time-Preserves m = Preserves-modify (raise_time m) (λ g h. h)

  update_current_time-Preserves :
      (from : EntityId) (t : ℕ) → Preserves (Holds P) (update_current_time from t)
  unfolding update_current_time
  update_current_time-Preserves from t =
      search (preserves_rules, put_tick-Preserves, raise_time-Preserves)

  log_event-Preserves :
      (from : EntityId) (e : LogEvent) (n : ℕ) → Preserves (Holds P) (modify (log_event from e n))
  unfolding log_event
  log_event-Preserves from e n = Preserves-modify (log_event from e n) (λ g h. h)

  add_to_event_log-Preserves :
      (from : EntityId) (e : LogEvent) → Preserves (Holds P) (add_to_event_log from e)
  unfolding add_to_event_log
  add_to_event_log-Preserves from e = search (preserves_rules, log_event-Preserves)

  log_rejection-Preserves :
      (from : EntityId) (r : Result MoveRejectReason Unit)
      → Preserves (Holds P) (log_rejection from r)
  unfolding log_rejection
  log_rejection-Preserves from (ok u) = Preserves-pure (ok u)
  log_rejection-Preserves from (err e) = search (preserves_rules, add_to_event_log-Preserves)

  play_sanitized-Preserves :
      (from : EntityId) (t : ℕ) (mv : GameMove) → Preserves (Holds P) (play_sanitized from t mv)
  unfolding play_sanitized
  play_sanitized-Preserves from t mv =
      Preserves-bind _ _ (update_current_time-Preserves from t) λ _.
        Preserves-bind run _ (run-Preserves inv) λ _.
          Preserves-bind _ _ (add_to_event_log-Preserves from (game_move mv)) λ _.
            Preserves-bind _ _ (play_inner-Preserves inv.base mv from)
              (log_rejection-Preserves from)

  set_sequence-Preserves :
      (from : EntityId) (n : ℕ) → Preserves (Holds P) (modify (set_sequence from n))
  unfolding set_sequence
  set_sequence-Preserves from n = Preserves-modify (set_sequence from n) (λ g h. h)

  play_in_sequence-Preserves :
      (from : EntityId) (e : MoveEnvelope) → Preserves (Holds P) (play_in_sequence from e)
  unfolding play_in_sequence
  play_in_sequence-Preserves from e =
      search (preserves_rules, set_sequence-Preserves, play_sanitized-Preserves) depth 14

  when_finished-Preserves :
      (from : EntityId) (e : MoveEnvelope) (o : Option FinishReason)
      → Preserves (Holds P) (when_finished from e o)
  unfolding when_finished
  when_finished-Preserves from e none = play_in_sequence-Preserves from e
  when_finished-Preserves from e (some reason) =
      search (preserves_rules, add_to_event_log-Preserves)

  play_from-Preserves :
      (e : MoveEnvelope) (o : Option EntityId) → Preserves (Holds P) (play_from e o)
  unfolding play_from
  play_from-Preserves e none = Preserves-pure (err no_such_user)
  play_from-Preserves e (some from) =
      search (preserves_rules, reading-Preserves inv.base, when_finished-Preserves) depth 12

  pub play-Preserves :
      (e : MoveEnvelope) (signed_by : Text) → Preserves (Holds P) (play e signed_by)
  unfolding play
  play-Preserves e signed_by = search (preserves_rules, play_from-Preserves)
