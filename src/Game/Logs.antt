-- ===== src/Game/Logs.antt =====
-- The chat and the event log are bounded.
use judica_vm.Base.{
  ℕ, ◌-◌, ◌≤◌, ◌≡◌, refl, arith, List, [], ◌∷◌, leb, length, pop_front, length-append, Bool-cases,
  inl, inr, Option, none, some, some,
}
use judica_vm.Base.Exec.{Preserves, Preserves-modify, preserves_rules, modify}
use judica_vm.Base.Text.{Text}
use judica_vm.Entity.{EntityId}
use judica_vm.Moves.{LogEvent}
use judica_vm.Board.{GameBoard}
use judica_vm.Game.{
  push_back, log_size, log_event, add_to_event_log, log_chat, play_chat, set_nick, rename,
}

length-pop_front : {A : Type 0} (xs : List A) → length (pop_front xs) ≡ length xs - 1
length-pop_front [] = refl
length-pop_front (x ∷ xs) = omega arith

length-push_back :
    {A : Type 0} (x : A) (log : List A)
    → length log ≤ log_size
    → length (push_back x log) ≤ log_size
unfolding push_back
length-push_back x log h = elim (Bool-cases (leb log_size (length log))) [
  | inl full ↦
      rw full (ground (arith, length-append (pop_front log) (x ∷ []), length-pop_front log))
  | inr room ↦ rw room (ground (arith, length-append log (x ∷ [])))
]

-- Neither log is longer than its size.
abbrev pub HasShortLogs : GameBoard → Type 0
HasShortLogs g = (length g.event_log ≤ log_size) × (length g.chat ≤ log_size)

log_event-Preserves :
    (from : EntityId) (e : LogEvent) (n : ℕ) → Preserves HasShortLogs (modify (log_event from e n))
unfolding log_event
log_event-Preserves from e n =
    Preserves-modify (log_event from e n)
      λ g (a, b). (length-push_back (n, from, e) g.event_log a, b)

log_chat-Preserves :
    (from : EntityId) (s : Text) (n : ℕ) → Preserves HasShortLogs (modify (log_chat from s n))
unfolding log_chat
log_chat-Preserves from s n =
    Preserves-modify (log_chat from s n) λ g (a, b). (a, length-push_back (n, from, s) g.chat b)

-- An event that is logged leaves the chat and the event log with at most 1000 entries, if they had
-- that before.
pub add_to_event_log-HasShortLogs :
    (from : EntityId) (e : LogEvent) → Preserves HasShortLogs (add_to_event_log from e)
unfolding add_to_event_log
add_to_event_log-HasShortLogs from e = search (preserves_rules, log_event-Preserves)

rename-Preserves :
    (from : EntityId) (s : Text) (o : Option Text) → Preserves HasShortLogs (rename from s o)
unfolding rename set_nick
rename-Preserves from s none = search preserves_rules
rename-Preserves from s (some nick) = search (preserves_rules, set_nick-Preserves)
  where
    set_nick-Preserves : (nick : Text) → Preserves HasShortLogs (modify (set_nick from nick))
    set_nick-Preserves nick = Preserves-modify (set_nick from nick) λ g h. h

-- A chat message leaves the chat and the event log with at most 1000 entries, if they had that
-- before.
pub play_chat-HasShortLogs :
    (from : EntityId) (s : Text) → Preserves HasShortLogs (play_chat from s)
unfolding play_chat
play_chat-HasShortLogs from s = search (preserves_rules, rename-Preserves, log_chat-Preserves)
