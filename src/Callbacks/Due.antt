-- ===== src/Callbacks/Due.antt =====
-- A run takes the callbacks that are due, and no other.
use judica_vm.Base.{ℕ, ◌≤◌, ◌<◌, ◌≡◌, refl, ◌∙◌, arith, none, some, List, [], ◌∷◌, ◌++◌}
use judica_vm.Base.Map.{BTreeMap, lookup, lookup-insert_self}
use judica_vm.Base.Order.{nat_ord}
use judica_vm.Board.{Callback}
use judica_vm.Schedule.{time, or_empty, push_callback}
use judica_vm.Callbacks.{below, at_least}

-- The split loses no callback and keeps their order.
pub below-at_least : (key : ℕ) (m : BTreeMap ℕ (List Callback)) → below key m ++ at_least key m ≡ m
unfolding below at_least
below-at_least key [] = refl
below-at_least key ((k, v) ∷ m) = ground (arith, below-at_least key m)

-- What a run at this time finds at a key: a batch that is due, or none.
pub lookup-below :
    (key k : ℕ) (m : BTreeMap ℕ (List Callback)) → k < key → lookup k (below key m) ≡ lookup k m
unfolding below lookup
lookup-below key k [] h = refl
lookup-below key k ((j, v) ∷ m) h = ground (arith, lookup-below key k m h)

pub lookup-below_late :
    (key k : ℕ) (m : BTreeMap ℕ (List Callback)) → key ≤ k → lookup k (below key m) ≡ none
unfolding below lookup
lookup-below_late key k [] h = refl
lookup-below_late key k ((j, v) ∷ m) h = ground (arith, lookup-below_late key k m h)

-- A callback that is scheduled is the last of the batch at its time, and a run after that time takes
-- that batch.
pub push_callback_lem :
    (cb : Callback) (m : BTreeMap ℕ (List Callback)) (key : ℕ)
    → time cb < key
    → lookup (time cb) (below key (push_callback cb m))
      ≡ some (or_empty (lookup (time cb) m) ++ cb ∷ [])
unfolding push_callback
push_callback_lem cb m key due = lookup-below key (time cb) _ due ∙ lookup-insert_self (time cb) _ m
