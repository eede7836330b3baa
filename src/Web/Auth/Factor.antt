-- ===== src/Web/Auth/Factor.antt =====
-- `consumeFactor` and `prepareMfaEnrollment`, within a transaction.
pub mod Once
use get_exception.Base.{
  Ident, ℕ, ◌+◌, ◌*◌, Bool, true, false, not, ◌&&◌, ◌==◌, Option, none, some, List, [], ◌∷◌, ◌++◌,
  any, if◌then◌else◌,
}
use get_exception.Base.Table.{find_first, count, update, update_many}
use get_exception.Web.AuthError.{
  AuthError, auth_error, failure, Result, ok, err, ◌>>=◌, ◌>>◌, require, found,
}
use get_exception.Web.Workspace.{
  Db, Credential, CredentialState, inactive, active, RecoveryCode, is_set, is_state,
  is_active_credential,
}
use get_exception.Web.Crypto.Totp.{verify_totp}
use get_exception.Web.Auth.{Primitives}

-- `throw new AuthError()`
abbrev pub denied : AuthError
denied = auth_error 403 none

-- The code that a user gives: one of the two, as the schema of the login checks.
pub data Factor : Type 0 where
  totp_code : List ℕ → Factor
  recovery_code : List ℕ → Factor

abbrev pub is_unused : Ident → Ident → RecoveryCode → Bool
is_unused user hash c = c.user_id == user && (c.code_hash == hash) && not (is_set c.used_at)

abbrev pub use_at : ℕ → RecoveryCode → RecoveryCode
use_at now c = record c { used_at = some now }

module _ (prim : Primitives) where
  unfoldable pub spend : Credential → Ident → Factor → ℕ → Db → Result Db
  spend credential user (recovery_code code) now db = do
    let unused = is_unused user (prim.digest code)
    require (count unused db.recovery_codes == 1) denied
    ok (record db { recovery_codes = update_many unused (use_at now) db.recovery_codes })
  spend credential user (totp_code code) now db = do
    secret ← found (prim.decrypt credential.ciphertext user active) failure
    match ← found (verify_totp prim.hmac secret code credential.last_counter now) failure
    counter ← found match denied
    ok (record db {
      credentials =
          update (is_active_credential user) (λ c. record c { last_counter = some counter })
            db.credentials;
    })

  unfoldable pub consume_factor : Ident → Factor → ℕ → Db → Result Db
  unfolding spend
  consume_factor user factor now db = do
    credential ← found (find_first (is_active_credential user) db.credentials) denied
    spend credential user factor now db

  abbrev pub is_pending_credential : Ident → Credential → Bool
  is_pending_credential user c = c.user_id == user && is_state inactive c.state

  abbrev pub enrollment_time : ℕ
  enrollment_time = 15 * 60000

  -- `prepareMfaEnrollment`, with the new secret.
  unfoldable pub prepare_mfa_enrollment : Ident → List ℕ → ℕ → Db → Db
  prepare_mfa_enrollment user secret now db =
      let row : Credential = record {
        user_id = user;
        state = inactive;
        ciphertext = prim.encrypt secret user inactive;
        last_counter = none;
        expires_at = some (now + enrollment_time);
      } in
      record db {
        credentials =
            if any (is_pending_credential user) db.credentials
            then update (is_pending_credential user) (λ c. row) db.credentials
            else db.credentials ++ (row ∷ []);
      }
