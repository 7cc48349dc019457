-- ===== src/Base/Exec.antt =====
-- Methods that mutate a state and may panic, with a rule of invariants for each way to build one.
use mathlib.Core.Bool.{Bool, true, false}
use mathlib.Core.List.{List, [], ◌∷◌}
use mathlib.Core.Path.{◌≡◌, refl}
use judica_vm.Base.Tests.{if◌then◌else◌}
use judica_vm.Base.Panics.{Outcome, done, panic}

abbrev pub Exec : Type 0 → Type 0 → Type 0
Exec S A = S → Outcome (A × S)

module _ {S A : Type 0} where
  unfoldable pub pure : A → Exec S A
  pure a s = done (a, s)

  unfoldable pub lift : Outcome A → Exec S A
  lift (done a) s = done (a, s)
  lift panic s = panic

  unfoldable pub gets : (S → A) → Exec S A
  gets f s = done (f s, s)

module _ {S : Type 0} where
  unfoldable pub modify : (S → S) → Exec S Unit
  modify f s = done (tt, f s)

module _ {S A B : Type 0} where
  abbrev pub continue : Outcome (A × S) → (A → Exec S B) → Outcome (B × S)
  continue (done (a, s)) f = f a s
  continue panic f = panic

  infixl 5 ◌>>=◌ ◌>>◌
  -- Opening this opens the other ways to build a method too.
  unfoldable pub ◌>>=◌ : Exec S A → (A → Exec S B) → Exec S B
  unfolding pure lift gets modify
  ◌>>=◌ m f s = continue (m s) f

  abbrev pub ◌>>◌ : Exec S A → Exec S B → Exec S B
  m >> n = m >>= λ _. n

-- `for x in xs { ... }`
module _ {S A : Type 0} where
  unfoldable pub for_each : List A → (A → Exec S Unit) → Exec S Unit
  unfolding ◌>>=◌
  for_each [] f = pure tt
  for_each (x ∷ xs) f = f x >> for_each xs f

-- `Result`, and the `?` operator: an error is returned at once.
pub data Result (E A : Type 0) : Type 0 where
  ok : A → Result E A
  err : E → Result E A

module _ {E A : Type 0} where
  pub same_ok : {x y : A} → ◌≡◌ {A = Result E A} (ok x) (ok y) → x ≡ y
  same_ok h = cc

module _ {S E A B : Type 0} where
  unfoldable pub and_then : Result E A → (A → Exec S (Result E B)) → Exec S (Result E B)
  unfolding pure
  and_then (ok a) f = f a
  and_then (err e) f = pure (err e)

-- A test that panics when it fails.
module _ {S : Type 0} where
  unfoldable pub require : Bool → Exec S Unit
  unfolding pure lift
  require true = pure tt
  require false = lift panic

-- What holds of the state after a call, if the call does not panic.
abbrev pub After : {S A : Type 0} → (S → Type 0) → Outcome (A × S) → Type 0
After P (done (_, s)) = P s
After P panic = Unit

-- A call from a state with the property ends, if it ends, in one with it.
pub record Preserves {S A : Type 0} (P : S → Type 0) (call : Exec S A) : Type 0 where
  pub holds : (before : S) → P before → After P (call before)

-- The calls that leave the state alone.
module _ {S A : Type 0} {P : S → Type 0} where
  pub Preserves-lift : (o : Outcome A) → Preserves P (lift o)
  unfolding lift
  Preserves-lift panic = record { holds = λ before p. tt }
  Preserves-lift (done value) = record { holds = λ before p. p }

  pub Preserves-gets : (field : S → A) → Preserves P (gets field)
  unfolding gets
  Preserves-gets field = record { holds = λ before p. p }

  pub Preserves-pure : (value : A) → Preserves P (pure value)
  unfolding pure
  Preserves-pure value = record { holds = λ before p. p }

-- The calls that are made of others.
module _ {S A B : Type 0} {P : S → Type 0} where
  continue-Preserves :
      (next : A → Exec S B) (o : Outcome (A × S))
      → ((value : A) → Preserves P (next value))
      → After P o
      → After P (continue o next)
  continue-Preserves next panic rest p = tt
  continue-Preserves next (done (value, mid)) rest p = (rest value).holds mid p

  pub Preserves-bind :
      (call : Exec S A) (next : A → Exec S B)
      → Preserves P call
      → ((value : A) → Preserves P (next value))
      → Preserves P (call >>= next)
  unfolding ◌>>=◌
  Preserves-bind call next start rest = record {
    holds = λ before p. continue-Preserves next (call before) rest (start.holds before p);
  }

module _ {S A : Type 0} {P : S → Type 0} where
  pub Preserves-if :
      (test : Bool) (left right : Exec S A)
      → Preserves P left
      → Preserves P right
      → Preserves P (if test then left else right)
  Preserves-if false left right on_left on_right = on_right
  Preserves-if true left right on_left on_right = on_left

module _ {S A : Type 0} {P : S → Type 0} where
  pub Preserves-for_each :
      (xs : List A) (f : A → Exec S Unit)
      → ((a : A) → Preserves P (f a))
      → Preserves P (for_each xs f)
  unfolding for_each
  Preserves-for_each [] f kf = Preserves-pure tt
  Preserves-for_each (x ∷ xs) f kf = Preserves-bind _ _ (kf x) (λ _. Preserves-for_each xs f kf)

module _ {S E A B : Type 0} {P : S → Type 0} where
  pub Preserves-and_then :
      (r : Result E A) (f : A → Exec S (Result E B))
      → ((a : A) → Preserves P (f a))
      → Preserves P (and_then r f)
  unfolding and_then
  Preserves-and_then (ok a) f kf = kf a
  Preserves-and_then (err e) f kf = Preserves-pure (err e)

module _ {S : Type 0} {P : S → Type 0} where
  pub Preserves-require : (b : Bool) → Preserves P (require b)
  unfolding require
  Preserves-require true = Preserves-pure tt
  Preserves-require false = Preserves-lift panic

  pub Preserves-modify : (f : S → S) → ((s : S) → P s → P (f s)) → Preserves P (modify f)
  unfolding modify
  Preserves-modify f k = record { holds = k }

pub ruleset preserves_rules = (
  Preserves-pure, Preserves-lift, Preserves-gets, Preserves-if, Preserves-bind, Preserves-for_each,
  Preserves-and_then, Preserves-require,
)

-- What holds of the result of a call, if the call does not panic.
abbrev pub Given : {S A : Type 0} → (A → Type 0) → Outcome (A × S) → Type 0
Given Q (done (a, _)) = Q a
Given Q panic = Unit

pub record Returns {S A : Type 0} (Q : A → Type 0) (m : Exec S A) : Type 0 where
  pub from : (s : S) → Given Q (m s)

module _ {S A : Type 0} {Q : A → Type 0} where
  pub Returns-pure : (a : A) → Q a → Returns {S = S} Q (pure a)
  unfolding pure
  Returns-pure a q = record { from = λ s. q }

  pub Returns-if :
      (b : Bool) (m n : Exec S A) → Returns Q m → Returns Q n → Returns Q (if b then m else n)
  Returns-if true m n rm rn = rm
  Returns-if false m n rm rn = rn

module _ {S A B : Type 0} {Q : B → Type 0} where
  Returns-continue :
      (r : Outcome (A × S)) (f : A → Exec S B)
      → ((a : A) → Returns Q (f a))
      → Given Q (continue r f)
  Returns-continue (done (a, s)) f rf = (rf a).from s
  Returns-continue panic f rf = tt

  pub Returns-bind :
      (m : Exec S A) (f : A → Exec S B) → ((a : A) → Returns Q (f a)) → Returns Q (m >>= f)
  unfolding ◌>>=◌
  Returns-bind m f rf = record { from = λ s. Returns-continue (m s) f rf }

  -- The value is known where it was computed by a pure function.
  pub Returns-lift :
      (o : Outcome A) (f : A → Exec S B)
      → ((a : A) → o ≡ done a → Returns Q (f a))
      → Returns Q (lift o >>= f)
  unfolding ◌>>=◌ lift
  Returns-lift (done a) f rf = record { from = (rf a refl).from }
  Returns-lift panic f rf = record { from = λ s. tt }

module _ {S E A B : Type 0} {Q : Result E B → Type 0} where
  pub Returns-and_then :
      (r : Result E A) (f : A → Exec S (Result E B))
      → ((e : E) → Q (err e))
      → ((a : A) → r ≡ ok a → Returns Q (f a))
      → Returns Q (and_then r f)
  unfolding and_then pure
  Returns-and_then (ok a) f qe rf = rf a refl
  Returns-and_then (err e) f qe rf = record { from = λ s. qe e }

pub ruleset returns_rules = (Returns-pure, Returns-if, Returns-bind, Returns-and_then)

-- What holds of the result of the first call can be used of the second.
module _ {S A B : Type 0} {P : A → Type 0} {Q : B → Type 0} where
  Given-continue :
      (o : Outcome (A × S)) (f : A → Exec S B)
      → Given P o
      → ((a : A) → P a → Returns Q (f a))
      → Given Q (continue o f)
  Given-continue (done (a, s)) f p rf = (rf a p).from s
  Given-continue panic f p rf = tt

  pub Returns-then :
      (m : Exec S A) (f : A → Exec S B)
      → Returns P m
      → ((a : A) → P a → Returns Q (f a))
      → Returns Q (m >>= f)
  unfolding ◌>>=◌
  Returns-then m f rm rf = record { from = λ s. Given-continue (m s) f (rm.from s) rf }

module _ {S A B : Type 0} {Q : B → Type 0} where
  pub Returns-gets :
      (field : S → A) (f : A → Exec S B)
      → ((s : S) → Returns Q (f (field s)))
      → Returns Q (gets field >>= f)
  unfolding ◌>>=◌ gets
  Returns-gets field f rf = record { from = λ s. (rf s).from s }
