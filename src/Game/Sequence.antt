-- ===== src/Game/Sequence.antt =====
-- `play` of common/mine-with-friends-board/src/game/mod.rs: which messages a board plays.
use judica_vm.Base.{
  ℕ, ◌+◌, ◌<◌, ◌≡◌, ◌⊎◌, inl, inr, arith, ◌==◌, Bool-cases, refl, true, false, none, some, done,
  u64, add-of_lt,
}
use judica_vm.Base.Exec.{ok, err, and_then, ◌>>=◌}
use judica_vm.Base.Map.{lookup, get_or_zero}
use judica_vm.Base.Order.{nat_ord, text_ord}
use judica_vm.Base.Text.{Text}
use judica_vm.Entity.{EntityId}
use judica_vm.Moves.{MoveEnvelope, FinishReason, no_such_user, game_is_finished, move_reject_reason}
use judica_vm.Board.{GameBoard}
use judica_vm.Plants.{reading}
use judica_vm.Finish
use judica_vm.Sanitize.{sanitize}
use judica_vm.Game.{
  play, play_from, when_finished, play_in_sequence, set_sequence, add_to_event_log, log_event,
  out_of_sequence, or_sanitize_error, play_sanitized,
}

-- The last sequence number on record for a player.
abbrev pub current_move : EntityId → GameBoard → ℕ
current_move from g = get_or_zero (lookup from g.player_move_sequence)

-- A message with a key that belongs to no user is rejected, and the board stays as it is.
pub play_stranger :
    (e : MoveEnvelope) (key : Text) (g : GameBoard)
    → lookup key g.users_by_key ≡ none
    → play e key g ≡ done (err no_such_user, g)
unfolding play play_from ◌>>=◌
play_stranger e key g h = rw h refl

-- Once the game is finished, each message of a user is rejected with the reason, and all that
-- changes is the event log, which gets the rejection.
pub play_finished :
    (e : MoveEnvelope) (key : Text) (g : GameBoard) (from : EntityId) (reason : FinishReason)
    → lookup key g.users_by_key ≡ some from
    → Finish.game_is_finished g ≡ done (some reason)
    → g.event_log_counter + 1 < u64
    → play e key g
      ≡ done (
        err (game_is_finished reason),
        log_event from (move_reject_reason (game_is_finished reason)) (g.event_log_counter + 1) g,
      )
unfolding play play_from when_finished reading add_to_event_log ◌>>=◌
play_finished e key g from reason h over fits =
    rw (h, over, add-of_lt u64 g.event_log_counter 1 fits) refl

-- The number after the last one, or the number 0 again where the last one is 0.
abbrev pub IsNext : ℕ → ℕ → Type 0
IsNext current sequence = (sequence ≡ current + 1) ⊎ ((current ≡ 0) × (sequence ≡ 0))

due_in_sequence :
    (current sequence : ℕ)
    → IsNext current sequence
    → out_of_sequence current (current + 1) sequence ≡ false
unfolding out_of_sequence
due_in_sequence current sequence (inl after) = ground arith
due_in_sequence current sequence (inr (none_yet, zeroth)) = ground arith

stray_out_of_sequence :
    (current sequence : ℕ)
    → ¬ IsNext current sequence
    → out_of_sequence current (current + 1) sequence ≡ true
unfolding out_of_sequence
stray_out_of_sequence current sequence stray =
    elim (Bool-cases (out_of_sequence current (current + 1) sequence)) [
      | inl out ↦ out
      | inr due ↦ elim (Bool-cases (current + 1 == sequence)) [
        | inl after ↦ absurd (stray (inl (ground arith)))
        | inr other ↦ absurd (stray (inr (ground arith, ground arith)))
      ]
    ]

module _ (e : MoveEnvelope) (key : Text) (g : GameBoard) (from : EntityId)
    (h : lookup key g.users_by_key ≡ some from) (going : Finish.game_is_finished g ≡ done none)
    (fits : current_move from g + 1 < u64) where
  in_sequence : play e key g ≡ play_in_sequence from e g
  unfolding play play_from when_finished reading ◌>>=◌
  in_sequence = rw (h, going) refl

  -- For a message of a known user in a game that goes on, where the number after the last one fits: a
  -- message out of sequence is answered as a success and does not run, and the board stays as it is but
  -- for the player's sequence number, which is written back. A message in sequence, whose number is the
  -- next one, or 0 while the last one is 0, uses up its number, and is sanitized and run on the board
  -- that has it.
  pub play_replayed :
      (IsNext (current_move from g) e.sequence
        → play e key g
          ≡ and_then
              (or_sanitize_error (
                sanitize
                  (set_sequence from e.sequence (set_sequence from (current_move from g) g))
                  e.d))
              (play_sanitized from e.time_millis)
              (set_sequence from e.sequence (set_sequence from (current_move from g) g)))
      × (¬ IsNext (current_move from g) e.sequence
          → play e key g ≡ done (ok tt, set_sequence from (current_move from g) g))
  unfolding play_in_sequence ◌>>=◌
  play_replayed = (
    λ due.
        rw
          (
            in_sequence,
            add-of_lt u64 (current_move from g) 1 fits,
            due_in_sequence (current_move from g) e.sequence due,
          )
          refl,
    λ stray.
        rw
          (
            in_sequence,
            add-of_lt u64 (current_move from g) 1 fits,
            stray_out_of_sequence (current_move from g) e.sequence stray,
          )
          refl,
  )
