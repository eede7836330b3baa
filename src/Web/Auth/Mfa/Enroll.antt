-- ===== src/Web/Auth/Mfa/Enroll.antt =====
-- `finish` of apps/web/src/server/mfa.ts, around its transaction.
use get_exception.Base.{ℕ, List, codes}
use get_exception.Web.Action.{Action, ◌>>=◌, ◌>>◌, transaction}
use get_exception.Web.Auth.{Primitives}
use get_exception.Web.Auth.RateLimit.{rate_limit}
use get_exception.Web.Auth.Sessions.{Cookie, authenticate_enrollment}
use get_exception.Web.Auth.Mfa.{finish}

unfoldable pub enroll :
    Primitives → Cookie → List (List ℕ) → List ℕ → List ℕ → ℕ → Action (List (List ℕ))
unfolding authenticate_enrollment rate_limit finish
enroll prim cookie recovery_codes code ip now = do
  (user, session) ← authenticate_enrollment cookie now
  rate_limit prim ip (codes user.email) "mfa_finish" now
  transaction (finish prim user.id session.id recovery_codes code now)
