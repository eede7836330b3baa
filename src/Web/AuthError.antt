-- ===== src/Web/AuthError.antt =====
-- apps/web/src/server/auth-error.ts: an action of the dashboard's server gives a result or throws an
-- `AuthError`, which rolls its transaction back. `failure` stands for an error of another class.
pub mod After
use get_exception.Base.{ℕ, String, Bool, true, false, Option, none, some}

pub data AuthError : Type 0 where
  auth_error : ℕ → Option String → AuthError
  failure : AuthError

pub data Result (A : Type 0) : Type 0 where
  ok : A → Result A
  err : AuthError → Result A

infixl 5 ◌>>=◌ ◌>>◌
abbrev pub ◌>>=◌ : {A B : Type 0} → Result A → (A → Result B) → Result B
ok a >>= f = f a
err e >>= f = err e

abbrev pub ◌>>◌ : {B : Type 0} → Result (Unit {0}) → Result B → Result B
m >> k = m >>= λ _. k

-- `if (!test) { throw new AuthError(status, reason); }`
abbrev pub require : Bool → AuthError → Result (Unit {0})
require true e = ok tt
require false e = err e

-- A row that is looked up, or the error of its lack.
abbrev pub found : {A : Type 0} → Option A → AuthError → Result A
found none e = err e
found (some a) e = ok a

abbrev pub succeeds : {A : Type 0} → Result A → Bool
succeeds (ok a) = true
succeeds (err e) = false
