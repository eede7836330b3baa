-- ===== src/Web/Auth/Mfa.antt =====
-- apps/web/src/server/mfa.ts: `pending`, `details` and the transaction of `finish`.
pub mod Enroll
use get_exception.Base.{
  Ident, ℕ, Bool, true, false, not, ◌&&◌, ◌||◌, ◌==◌, leb, any, Option, none, some, List, [], ◌∷◌,
  ◌++◌, map, codes,
}
use get_exception.Base.Table.{find_first, delete_many, update}
use get_exception.Web.AuthError.{auth_error, failure, Result, ok, err, ◌>>=◌, ◌>>◌, require, found}
use get_exception.Web.Workspace.{
  Db, User, Credential, Session, inactive, active, holds_of, is_set, user_of, log,
}
use get_exception.Web.Crypto.Totp.{verify_totp}
use get_exception.Web.Auth.{Primitives}
use get_exception.Web.Auth.Factor.{denied, is_pending_credential}
use get_exception.Web.Auth.Sessions.{session_of, is_enrollment, is_active_member}

abbrev unexpired : ℕ → Option ℕ → Bool
unexpired now none = false
unexpired now (some t) = not (leb t now)

abbrev pub is_fresh : ℕ → Credential → Bool
is_fresh now c = unexpired now c.expires_at

module _ (prim : Primitives) where
  unfoldable pub pending : Ident → ℕ → Db → Result Credential
  pending user now db = do
    credential ←
        found (find_first (is_pending_credential prim user) db.credentials)
          (auth_error 410 (some "mfa_enrollment_expired"))
    require (is_fresh now credential) (auth_error 410 (some "mfa_enrollment_expired"))
    ok credential

  -- The secret that `details` shows, for the user that `authenticateEnrollment` gives.
  unfoldable pub details : Ident → ℕ → Db → Result (List ℕ)
  unfolding pending
  details user now db = do
    credential ← pending user now db
    found (prim.decrypt credential.ciphertext user inactive) failure

  -- The rows after the second factor of a user is set up.
  unfoldable pub enable : Ident → List ℕ → ℕ → List (List ℕ) → Db → Db
  enable user secret counter recovery_codes db = log "mfa_enable" true (some user) (record db {
    credentials =
        delete_many (λ c. c.user_id == user) db.credentials
        ++ (record {
          user_id = user;
          state = active;
          ciphertext = prim.encrypt secret user active;
          last_counter = some counter;
          expires_at = none;
        }
            ∷ []);
    recovery_codes =
        delete_many (λ c. c.user_id == user) db.recovery_codes
        ++ map (λ code. record { user_id = user; code_hash = prim.digest code; used_at = none })
            recovery_codes;
    users = update (λ u. u.id == user) (λ u. record u { two_factor_enabled = true }) db.users;
    sessions = delete_many (λ s. s.user_id == user) db.sessions;
  })

  -- The transaction of `finish`, for the user and the session of `authenticateEnrollment`.
  unfoldable pub finish :
      Ident → Ident → List (List ℕ) → List ℕ → ℕ → Db → Result (Db × List (List ℕ))
  unfolding enable
  finish user session recovery_codes code now db = do
    u ← found (user_of db.users user) denied
    s ← found (session_of db.sessions session) denied
    credential ← found (find_first (is_pending_credential prim user) db.credentials) denied
    require
        (not u.disabled
          && not u.two_factor_enabled
          && any (is_active_member user) db.members
          && is_enrollment s.mfa_method
          && not (is_set s.mfa_verified_at)
          && is_fresh now credential)
        denied
    secret ← found (prim.decrypt credential.ciphertext user inactive) failure
    match ← found (verify_totp prim.hmac secret code none now) failure
    counter ← found match denied
    ok (enable user secret counter recovery_codes db, recovery_codes)
