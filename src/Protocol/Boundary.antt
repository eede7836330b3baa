-- ===== src/Protocol/Boundary.antt =====
-- `BoundaryError` of packages/protocol/src/json.ts as a result type. `out_of_fuel` stands for a
-- recursion that the model cut short.
pub mod Ensures
use get_exception.Base.{◌≡◌, refl, Bool, true, false}

pub data Reason : Type 0 where
  invalid too_large unsupported : Reason

pub data Outcome {ℓ} (A : Type ℓ) : Type ℓ where
  ok : A → Outcome A
  err : Reason → Outcome A
  out_of_fuel : Outcome A

infixl 5 ◌>>=◌ ◌>>◌
abbrev pub ◌>>=◌ {ℓ κ} : {A : Type ℓ} {B : Type κ} → Outcome A → (A → Outcome B) → Outcome B
ok a >>= f = f a
err r >>= f = err r
out_of_fuel >>= f = out_of_fuel

abbrev pub ◌>>◌ {ℓ} : {B : Type ℓ} → Outcome (Unit {0}) → Outcome B → Outcome B
m >> k = m >>= λ _. k

-- `if (!test) { throw new BoundaryError(reason); }`
abbrev pub require : Bool → Reason → Outcome (Unit {0})
require true r = ok tt
require false r = err r
