-- ===== src/Web/Auth/Enter.antt =====
-- The transactions of `login` and `stepUp`.
use get_exception.Base.{
  Ident, ℕ, String, Bool, true, false, not, ◌&&◌, ◌==◌, Option, none, some, List, [], ◌∷◌, ◌++◌,
  if◌then◌else◌,
}
use get_exception.Base.Table.{update}
use get_exception.Web.AuthError.{Result, ok, ◌>>=◌, ◌>>◌, require, found}
use get_exception.Web.Workspace.{Db, Session, MfaMethod, totp, recovery, enrollment, user_of, log}
use get_exception.Web.Auth.{Primitives}
use get_exception.Web.Auth.Factor.{
  Factor, totp_code, recovery_code, denied, consume_factor, prepare_mfa_enrollment,
}
use get_exception.Web.Auth.Sessions.{is_session_allowed}

abbrev pub factor_method : Factor → MfaMethod
factor_method (totp_code code) = totp
factor_method (recovery_code code) = recovery

abbrev pub method_name : MfaMethod → String
method_name totp = "totp"
method_name recovery = "recovery"
method_name enrollment = "password"

abbrev pub verified_at : MfaMethod → ℕ → Option ℕ
verified_at totp now = some now
verified_at recovery now = some now
verified_at enrollment now = none

module _ (prim : Primitives) where
  -- A user with a second factor gives it; any other gets a secret to set one up.
  unfoldable pub pass_factor : Bool → Ident → List ℕ → Factor → ℕ → Db → Result Db
  pass_factor true user secret factor now db = consume_factor prim user factor now db
  pass_factor false user secret factor now db = ok (prepare_mfa_enrollment prim user secret now db)

  -- `createSession`, behind its hook. `id` is the new session's.
  unfoldable pub create_session : Ident → Ident → MfaMethod → ℕ → Db → Result (Db × Session)
  create_session id user method now db = do
    require (is_session_allowed db user method (verified_at method now)) denied
    let session = prim.new_session id user method (verified_at method now) now
    ok (record db { sessions = db.sessions ++ (session ∷ []) }, session)

  -- The transaction of `login`, with the method.
  unfoldable pub enter :
      Ident → Ident → List ℕ → Factor → ℕ → Db → Result (Db × (Session × MfaMethod))
  unfolding pass_factor create_session
  enter id user secret factor now db = do
    fresh ← found (user_of db.users user) denied
    require (not fresh.disabled && fresh.email_verified) denied
    passed ← pass_factor fresh.two_factor_enabled user secret factor now db
    let method = if fresh.two_factor_enabled then factor_method factor else enrollment
    (stored, session) ← create_session id user method now passed
    ok (log (method_name method) true (some user) stored, (session, method))

  -- The transaction of `stepUp`.
  unfoldable pub step_up_session : Ident → Ident → List ℕ → ℕ → Db → Result (Db × Unit {0})
  step_up_session user session code now db = do
    passed ← consume_factor prim user (totp_code code) now db
    ok (
      log "step_up" true (some user) (record passed {
        sessions =
            update (λ s. s.id == session)
              (λ s. record s { mfa_verified_at = some now; mfa_method = some totp })
              passed.sessions;
      }),
      tt,
    )
