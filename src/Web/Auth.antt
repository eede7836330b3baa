-- ===== src/Web/Auth.antt =====
-- apps/web/src/server/auth-service.ts: rate limits, factors, sessions and their rights. What the
-- code calls of node:crypto and argon2, and the session row that better-auth makes, are in
-- `Primitives`. Passwords, secrets and codes are lists of code units; hashes and ciphertexts are
-- numbers. Times are milliseconds.
pub mod RateLimit
pub mod Factor
pub mod Sessions
pub mod Enter
pub mod Login
pub mod Setup
pub mod Mfa
pub mod Tests
use get_exception.Base.{Ident, ℕ, Bool, Option, List}
use get_exception.Web.Crypto.Totp.{Hmac}
use get_exception.Web.Workspace.{CredentialState, MfaMethod, Session}

-- `decrypt` is `none` where `decryptSecret` throws. `bucket_id` is the HMAC of a window and an
-- identifier, and `normalize` the `trim` and `toLowerCase` of strings. `new_session` is the row that
-- `createSession` stores for an identifier, a user, a method, its time of verification and the time.
pub record Primitives : Type 0 where
  pub hmac : Hmac
  pub digest : List ℕ → Ident
  pub verify_password : Ident → List ℕ → Bool
  pub encrypt : List ℕ → Ident → CredentialState → Ident
  pub decrypt : Ident → Ident → CredentialState → Option (List ℕ)
  pub bucket_id : ℕ → List ℕ → Ident
  pub normalize : List ℕ → List ℕ
  pub new_session : Ident → Ident → MfaMethod → Option ℕ → ℕ → Session
