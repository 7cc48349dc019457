-- ===== src/Clock.antt =====
-- The game's time in common/mine-with-friends-board/src/game/mod.rs: `update_current_time`, the
-- median of the players' clocks.
pub mod Median
pub mod Monotone
use judica_vm.Base.{
  ℕ, ◌-◌, ◌/◌, ◌%◌, max, Bool, Option, none, some, List, [], ◌∷◌, map, Outcome, done,
  ◌>>=◌ as and_also, add, sub, u64, leb, ltb, ◌==◌, if◌then◌else◌, length, get_elem?,
}
use judica_vm.Base.Exec.{pure, lift, gets, modify, ◌>>=◌, ◌>>◌}
use judica_vm.Base.Sort.{sort}
use judica_vm.Base.Order.{nat_ord}
use judica_vm.Base.Map.{BTreeMap, lookup, insert, values, get_or_zero}
use judica_vm.Entity.{EntityId}
use judica_vm.Board.{GameBoard, Game, Tick}

unfoldable pub first_tick : ℕ → Option Tick → Tick
first_tick time none = record { first_time = time; elapsed = 0 }
first_tick time (some t) = t

-- `time.checked_sub(first_time).unwrap_or_default()` is `-` of ℕ.
unfoldable pub advance_tick : ℕ → Option Tick → Tick
unfolding first_tick
advance_tick time found =
    let t = first_tick time found in record t { elapsed = max t.elapsed (time - t.first_time) }

unfoldable pub median : List ℕ → Outcome ℕ
unfolding add sub
median elapsed =
    if length elapsed % 2 == 0
    then and_also (sub (length elapsed / 2) 1) (λ i.
      and_also
        (add u64 (get_or_zero (get_elem? elapsed (length elapsed / 2)))
          (get_or_zero (get_elem? elapsed i)))
        (λ twice. done (twice / 2)))
    else done (get_or_zero (get_elem? elapsed (length elapsed / 2)))

unfoldable pub elapsed_times : GameBoard → List ℕ
elapsed_times g = map (λ t. t.elapsed) (values g.ticks)

unfoldable pub put_tick : EntityId → ℕ → GameBoard → GameBoard
unfolding advance_tick
put_tick from time g = record g {
  ticks = insert from (advance_tick time (lookup from g.ticks)) g.ticks;
}

unfoldable pub raise_time : ℕ → GameBoard → GameBoard
raise_time m g = record g { elapsed_time = max g.elapsed_time m }

-- `update_current_time`
unfoldable pub update_current_time : EntityId → ℕ → Game Unit
unfolding ◌>>=◌ put_tick sort median elapsed_times raise_time
update_current_time from time = do
  modify (put_tick from time)
  elapsed ← gets elapsed_times
  m ← lift (median (sort leb elapsed))
  modify (raise_time m)
