-- ===== src/Protocol/Boundary/Ensures.antt =====
-- Postconditions of outcomes: what holds of a result, with the promise that the fuel suffices.
use get_exception.Base.{◌≡◌, refl, Bool, true, false, if◌then◌else◌}
use get_exception.Protocol.Boundary.{Outcome, ok, err, out_of_fuel, Reason, ◌>>=◌, require}

abbrev pub Ensures : {A : Type 0} → (A → Type 0) → Outcome A → Type 0
Ensures Q (ok a) = Q a
Ensures Q (err r) = Unit
Ensures Q out_of_fuel = ⊥

module _ {A B : Type 0} (Q : A → Type 0) (R : B → Type 0) where
  pub Ensures-bind :
      (m : Outcome A) (f : A → Outcome B)
      → Ensures Q m
      → ((a : A) → Q a → Ensures R (f a))
      → Ensures R (m >>= f)
  Ensures-bind (ok a) f h k = k a h
  Ensures-bind (err r) f h k = tt
  Ensures-bind out_of_fuel f h k = h

pub Ensures-weaken :
    {A : Type 0} (Q R : A → Type 0) (m : Outcome A)
    → ((a : A) → Q a → R a)
    → Ensures Q m
    → Ensures R m
Ensures-weaken Q R (ok a) f h = f a h
Ensures-weaken Q R (err r) f h = tt
Ensures-weaken Q R out_of_fuel f h = h

pub Ensures-require :
    {B : Type 0} (R : B → Type 0) (b : Bool) (r : Reason) (m : Outcome B)
    → (b ≡ true → Ensures R m)
    → Ensures R (require b r >>= λ _. m)
Ensures-require R true r m h = h refl
Ensures-require R false r m h = tt

pub Ensures-if :
    {B : Type 0} (R : B → Type 0) (b : Bool) (m n : Outcome B)
    → (b ≡ true → Ensures R m)
    → (b ≡ false → Ensures R n)
    → Ensures R (if b then m else n)
Ensures-if R true m n h k = h refl
Ensures-if R false m n h k = k refl
