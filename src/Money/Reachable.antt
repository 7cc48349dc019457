-- ===== src/Money/Reachable.antt =====
-- The boards that a game reaches, their coins, and what a single move does to them.
use judica_vm.Base.{◌≡◌, refl, sym, ◌∙◌, subst, done, some, sum}
use judica_vm.Base.Exec.{Result, Exec, Preserves, After}
use judica_vm.Base.Map.{lookup, values}
use judica_vm.Base.Order.{nat_ord}
use judica_vm.Base.Text.{Text}
use judica_vm.Entity.{EntityId}
use judica_vm.Tokens.{TokenBase, TokenPointer}
use judica_vm.Moves.{GameMove, MoveEnvelope, MoveRejectReason}
use judica_vm.Board.{GameBoard, coins}
use judica_vm.Setup.{GameSetup}
use judica_vm.NewGame.{new}
use judica_vm.Game.{play, play_inner}
use judica_vm.Money.{Holds}
use judica_vm.Money.Moves.{play_inner-Preserves}
use judica_vm.Money.Play.{play-Preserves}
use judica_vm.Money.Supply.{
  IsConsistent, SupplyIs, SupplyIs-IsInvariant, IsConsistent-IsMintInvariant,
}
use judica_vm.Money.Start.{new_lem, ResultIs}

-- Every token's cached total is the sum of its balances, and its id is at most the allocator's last.
abbrev pub IsSolvent : GameBoard → Type 0
IsSolvent g = Holds IsConsistent g

-- The boards of a game with this set-up: the first, and those after a message.
pub data IsReached (s : GameSetup) : GameBoard → Type 0 where
  started : {g : GameBoard} → new s ≡ done g → IsReached s g
  played :
      {g g' : GameBoard} (e : MoveEnvelope) (key : Text) (r : Result MoveRejectReason (Unit {0}))
      → IsReached s g
      → play e key g ≡ done (r, g')
      → IsReached s g'

module _ {S A : Type 0} {P : S → Type 0} where
  after : {m : Exec S A} (k : Preserves P m) {s s' : S} (r : A) → P s → m s ≡ done (r, s') → P s'
  after k {s} r h e = subst (After P) e (k.holds s h)

-- A message keeps every token's cached total equal to the sum of its balances, and every token's id
-- at most the last one given out, whoever signs it and whatever its result is.
pub play-IsSolvent :
    (e : MoveEnvelope) (key : Text) (g g' : GameBoard) (r : Result MoveRejectReason (Unit {0}))
    → IsSolvent g
    → play e key g ≡ done (r, g')
    → IsSolvent g'
play-IsSolvent e key g g' r h ran =
    after (play-Preserves IsConsistent-IsMintInvariant e key) r h ran

-- On every board that a game reaches from its set-up by messages, every token's cached total is the
-- sum of its balances, and every token's id is at most the last one given out.
pub IsReached-IsSolvent : (s : GameSetup) {g : GameBoard} → IsReached s g → IsSolvent g
IsReached-IsSolvent s (started e) = subst (ResultIs (Holds IsConsistent)) e (new_lem s)
IsReached-IsSolvent s (played e key r before ran) =
    play-IsSolvent e key _ _ r (IsReached-IsSolvent s before) ran

-- A move of a player, of any kind, neither makes nor loses a coin of any token, whatever its result
-- is: after it, each token of a solvent board has the same total, which is still the sum of its
-- balances.
pub play_inner_conserves :
    (mv : GameMove) (from : EntityId) (g g' : GameBoard) (r : Result MoveRejectReason (Unit {0}))
    (id : TokenPointer) (t : TokenBase)
    → IsSolvent g
    → lookup id (coins g) ≡ some t
    → play_inner mv from g ≡ done (r, g')
    → (t' : TokenBase) × (lookup id (coins g') ≡ some t')
      × (t'.total ≡ t.total)
      × (sum (values t'.balances) ≡ t.total)
play_inner_conserves mv from g g' r id t h found ran =
    let kept : SupplyIs id t.total (coins g') g'.alloc =
      after (play_inner-Preserves (SupplyIs-IsInvariant id t.total) mv from) r (h, (t, found, refl))
        ran in
    let (t', found', same) = kept.1 in (t', found', same, sym ((kept.0 id t' found').0) ∙ same)
