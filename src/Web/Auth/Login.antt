-- ===== src/Web/Auth/Login.antt =====
-- `password`, `login` and `stepUp`. The hash that stands in for an unknown user is `dummy`.
pub mod Safety
use get_exception.Base.{
  Ident, ℕ, String, Bool, true, false, not, ◌&&◌, ◌==◌, ◌===◌, string_eq, Option, none, some, List,
  [], codes,
}
use get_exception.Base.Table.{find_first}
use get_exception.Web.AuthError.{Result}
use get_exception.Web.Action.{
  Action, ◌>>=◌, ◌>>◌, return, ensure, expect, query, write, transaction, on_error,
}
use get_exception.Web.Workspace.{
  Db, User, Account, Session, MfaMethod, totp, recovery, enrollment, holds_of, log,
}
use get_exception.Web.Auth.{Primitives}
use get_exception.Web.Auth.RateLimit.{rate_limit}
use get_exception.Web.Auth.Factor.{Factor, totp_code, recovery_code, denied}
use get_exception.Web.Auth.Sessions.{Cookie, is_enrollment, authorize}
use get_exception.Web.Auth.Enter.{factor_method, method_name, enter, step_up_session}

-- The schema lets at most one of the two codes in.
pub record LoginInput : Type 0 where
  pub email : String
  pub password : List ℕ
  pub code : Option (List ℕ)
  pub recovery : Option (List ℕ)

pub record StepUpInput : Type 0 where
  pub password : List ℕ
  pub code : List ℕ

pub record LoggedIn : Type 0 where
  pub user : User
  pub session : Session
  pub enrollment_required : Bool

-- `code ?? ""`, if there is no recovery code.
abbrev pub given_factor : Option (List ℕ) → Option (List ℕ) → Factor
given_factor code (some r) = recovery_code r
given_factor (some c) none = totp_code c
given_factor none none = totp_code []

abbrev pub by_email : String → List User → Option User
by_email email users = find_first (λ u. u.email === email) users

abbrev stored_hash : Ident → Option Account → Ident
stored_hash dummy none = dummy
stored_hash dummy (some a) = a.password

-- `user?.accounts[0]?.password ?? dummyHash`
abbrev pub password_hash : Ident → Option User → List Account → Ident
password_hash dummy none accounts = dummy
password_hash dummy (some u) accounts =
    stored_hash dummy (find_first (λ a. a.user_id == u.id) accounts)

abbrev id_of : Option User → Option Ident
id_of none = none
id_of (some u) = some u.id

abbrev failed_factor : Bool → Factor → Ident → Db → Db
failed_factor true factor user db = log (method_name (factor_method factor)) false (some user) db
failed_factor false factor user db = db

module _ (prim : Primitives) (dummy : Ident) where
  unfoldable pub password : String → List ℕ → Action User
  password email given = do
    db ← query (λ db. db)
    let user = by_email email db.users
    let valid = prim.verify_password (password_hash dummy user db.accounts) given
    let success = valid && holds_of (λ u. not u.disabled && u.email_verified) user
    write (log "password" success (id_of user))
    ensure success denied
    expect user denied

  -- `id` is the new session's, and `secret` one for a user with no second factor yet.
  unfoldable pub login : LoginInput → List ℕ → Ident → List ℕ → ℕ → Action LoggedIn
  unfolding password
  login input ip id secret now = do
    rate_limit prim ip (codes input.email) "login" now
    user ← password input.email input.password
    let factor = given_factor input.code input.recovery
    (session, method) ←
        on_error (failed_factor user.two_factor_enabled factor user.id)
          (transaction (enter prim id user.id secret factor now))
    return (record {
      user = user;
      session = session;
      enrollment_required = is_enrollment (some method);
    })

  unfoldable pub step_up : Cookie → StepUpInput → List ℕ → ℕ → Action (Unit {0})
  unfolding password
  step_up cookie input ip now = do
    current ← authorize cookie false now
    rate_limit prim ip (codes current.user.email) "step_up" now
    user ← password current.user.email input.password
    on_error (log "step_up" false (some current.user.id))
        (transaction (step_up_session prim current.user.id current.session.id input.code now))
