-- ===== src/Clock/Monotone.antt =====
-- `update_current_time` of common/mine-with-friends-board/src/game/mod.rs: the time after a tick.
use judica_vm.Base.{ℕ, ◌≤◌, ◌≡◌}
use judica_vm.Entity.{EntityId}
use judica_vm.Base.{◌+◌, some}
use judica_vm.Base.Map.{lookup}
use judica_vm.Base.Order.{nat_ord}
use judica_vm.Board.{GameBoard, Tick}

-- The player's own clock: it has come to the time that it shows, from the first time that it showed,
-- and has not gone back.
abbrev pub HasTicked : EntityId → ℕ → GameBoard → GameBoard → Type 0
HasTicked from time g g' =
    (t : Tick) × (lookup from g'.ticks ≡ some t)
    × (time ≤ t.first_time + t.elapsed)
    × ((old : Tick)
        → lookup from g.ticks ≡ some old
        → (t.first_time ≡ old.first_time) × (old.elapsed ≤ t.elapsed))
