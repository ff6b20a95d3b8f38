-- ===== src/Fasl/Ensures.antt =====
-- What holds of a run of the reader that ends with a result; a run that is out of fuel ensures nothing.
use ikarus.Base.{◌≡◌, ◌≢◌, refl, Bool, true, false, if◌then◌else◌}
use ikarus.Fasl
use ikarus.Fasl.{Outcome, ok, stop, out_of_fuel}

-- The run has a result with P, or stops.
pub data Ensures {ℓ κ} {A : Type ℓ} (P : A → Type κ) : Outcome A → Type (ℓ ⊔ κ) where
  holds : {a : A} → P a → Ensures P (ok a)
  stopped : {e : Fasl.Stop} → Ensures P (stop e)

module _ {ℓ κ} {A : Type ℓ} {P : A → Type κ} where
  pub Ensures-out_of_fuel : {r : Outcome A} → Ensures P r → r ≢ out_of_fuel
  Ensures-out_of_fuel (holds h) = cc
  Ensures-out_of_fuel stopped = cc

  pub Ensures-if :
      (b : Bool) {x y : Outcome A}
      → (b ≡ true → Ensures P x)
      → (b ≡ false → Ensures P y)
      → Ensures P (if b then x else y)
  Ensures-if true hx hy = hx refl
  Ensures-if false hx hy = hy refl

  pub Ensures-bind {ℓ' κ'} :
      {B : Type ℓ'} {Q : B → Type κ'} {r : Outcome A} {f : A → Outcome B}
      → Ensures P r
      → ((a : A) → P a → Ensures Q (f a))
      → Ensures Q (Fasl.bind r f)
  Ensures-bind (holds {a} h) k = k a h
  Ensures-bind stopped k = stopped

  pub Ensures-map {κ'} :
      {Q : A → Type κ'} {r : Outcome A} → ((a : A) → P a → Q a) → Ensures P r → Ensures Q r
  Ensures-map k (holds {a} h) = holds (k a h)
  Ensures-map k stopped = stopped
