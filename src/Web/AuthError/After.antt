-- ===== src/Web/AuthError/After.antt =====
-- What holds of the result of an action, if it succeeds.
use get_exception.Base.{Bool, true, false, Option, none, some, ◌≡◌, refl, subst, ◌⊎◌, inl, inr}
use get_exception.Web.AuthError.{AuthError, Result, ok, err, ◌>>=◌, ◌>>◌, require, found}

abbrev pub After : {A : Type 0} → (A → Type 0) → Result A → Type 0
After P (ok a) = P a
After P (err e) = Unit {0}

pub After-ok : {A : Type 0} (P : A → Type 0) (r : Result A) (a : A) → After P r → r ≡ ok a → P a
After-ok P r a h e = subst (After P) e h

pub After-found :
    {A B : Type 0} (P : B → Type 0) (o : Option A) (e : AuthError) (k : A → Result B)
    → ((a : A) → o ≡ some a → After P (k a))
    → After P (found o e >>= k)
After-found P none e k h = tt
After-found P (some a) e k h = h a refl

pub After-require :
    {B : Type 0} (P : B → Type 0) (b : Bool) (e : AuthError) (k : Result B)
    → (b ≡ true → After P k)
    → After P (require b e >> k)
After-require P true e k h = h refl
After-require P false e k h = tt

pub After-bind :
    {A B : Type 0} (P : B → Type 0) (r : Result A) (k : A → Result B)
    → ((a : A) → r ≡ ok a → After P (k a))
    → After P (r >>= k)
After-bind P (ok a) k h = h a refl
After-bind P (err e) k h = tt

-- To split on a result and keep the equation.
pub Result-cases :
    {A : Type 0} (r : Result A) → ((e : AuthError) × (r ≡ err e)) ⊎ ((a : A) × (r ≡ ok a))
Result-cases (err e) = inl (e, refl)
Result-cases (ok a) = inr (a, refl)
