-- ===== src/Base/Results.antt =====
-- The outcome of a run whose recursion goes by fuel.
use mathlib.Core.Path.{◌≡◌, refl, subst}
use mathlib.Core.Logic.{◌≢◌}
use mathlib.Core.Bool.{Bool, true, false}
use zero_trust_public.Base.Tests.{if◌then◌else◌}

-- `err` is an exception of the program; `out_of_fuel` has no counterpart there.
pub data Outcome {ℓ κ} (E : Type κ) (A : Type ℓ) : Type (ℓ ⊔ κ) where
  ok : A → Outcome E A
  err : E → Outcome E A
  out_of_fuel : Outcome E A

module _ {ℓ ℓ' κ} {E : Type κ} {A : Type ℓ} {B : Type ℓ'} where
  infixl 5 ◌>>=◌
  abbrev pub ◌>>=◌ : Outcome E A → (A → Outcome E B) → Outcome E B
  ok a >>= f = f a
  err e >>= f = err e
  out_of_fuel >>= f = out_of_fuel

-- The run kept within its fuel, and `P` holds of its value if it has one.
pub data Ensures {ℓ κ μ} {E : Type κ} {A : Type ℓ} (P : A → Type μ)
    : Outcome E A → Type (ℓ ⊔ κ ⊔ μ) where
  holds : {a : A} → P a → Ensures P (ok a)
  raised : {e : E} → Ensures P (err e)

module _ {ℓ κ μ} {E : Type κ} {A : Type ℓ} {P : A → Type μ} where
  pub Ensures-ok : {r : Outcome E A} {a : A} → Ensures P r → r ≡ ok a → P a
  Ensures-ok (holds h) e = subst P (cc) h
  Ensures-ok raised e = cc

  Ensures-out_of_fuel : {r : Outcome E A} → Ensures P r → r ≢ out_of_fuel
  Ensures-out_of_fuel (holds h) = cc
  Ensures-out_of_fuel raised = cc

  pub Ensures-if :
      (b : Bool) {x y : Outcome E A}
      → (b ≡ true → Ensures P x)
      → (b ≡ false → Ensures P y)
      → Ensures P (if b then x else y)
  Ensures-if true hx hy = hx refl
  Ensures-if false hx hy = hy refl

  pub Ensures-bind {ℓ' μ'} :
      {B : Type ℓ'} {Q : B → Type μ'} {r : Outcome E A} {f : A → Outcome E B}
      → Ensures P r
      → ((a : A) → P a → Ensures Q (f a))
      → Ensures Q (r >>= f)
  Ensures-bind (holds {a} h) k = k a h
  Ensures-bind raised k = raised

  pub Ensures-mono {μ'} :
      {Q : A → Type μ'} {r : Outcome E A} → Ensures P r → ((a : A) → P a → Q a) → Ensures Q r
  Ensures-mono (holds {a} p) h = holds (h a p)
  Ensures-mono raised h = raised
