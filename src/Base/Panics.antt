-- ===== src/Base/Panics.antt =====
-- What a call of Rust code does: it is done with a value, or it panics.
use mathlib.Core.Path.{◌≡◌, refl}
use mathlib.Core.Logic.{◌⊎◌, inl, inr}
use mathlib.Core.Option.{Option, none, some}

pub data Outcome {ℓ} (A : Type ℓ) : Type ℓ where
  done : A → Outcome A
  panic : Outcome A

infixl 5 ◌>>=◌
abbrev pub ◌>>=◌ {ℓ κ} : {A : Type ℓ} {B : Type κ} → Outcome A → (A → Outcome B) → Outcome B
done a >>= f = f a
panic >>= f = panic

-- `Option::unwrap`
abbrev pub unwrap {ℓ} : {A : Type ℓ} → Option A → Outcome A
unwrap none = panic
unwrap (some a) = done a

pub Outcome-cases {ℓ} : {A : Type ℓ} (m : Outcome A) → (m ≡ panic) ⊎ ((a : A) × (m ≡ done a))
Outcome-cases (done a) = inr (a, refl)
Outcome-cases panic = inl refl

pub >>=-eq-done {ℓ κ} :
    {A : Type ℓ} {B : Type κ} (m : Outcome A) (f : A → Outcome B) {b : B}
    → (m >>= f) ≡ done b
    → (a : A) × (m ≡ done a) × (f a ≡ done b)
>>=-eq-done (done a) f h = (a, refl, h)
>>=-eq-done panic f h = cc

pub same_done {ℓ} : {A : Type ℓ} {x y : A} → done x ≡ done y → x ≡ y
same_done h = cc

-- A call has one result.
module _ {ℓ} {A : Type ℓ} where
  pub same_value : (m : Outcome A) (x y : A) → m ≡ done x → m ≡ done y → y ≡ x
  same_value m x y e e' = cc

  pub no_value {κ} : {B : Type κ} (m : Outcome A) (x : A) → m ≡ panic → m ≡ done x → B
  no_value m x e e' = cc

module _ {ℓ} {S : Type ℓ} where
  pub same_result :
      (m : Outcome (Unit {0} × S)) (x y : S) → m ≡ done (tt, x) → m ≡ done (tt, y) → y ≡ x
  same_result m x y e e' = cc
