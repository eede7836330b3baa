-- ===== src/Web/Auth/Setup.antt =====
-- The setup of a new installation: `setupAccess`, `setupSession`, `prepareSetup` and `finishSetup`.
-- An empty text of a setup session is `none`. `allowed` is `passwordAllowed`, `hash` the hash of the
-- password, and `hostname` that of the dashboard's origin.
pub mod Activate
pub mod Finish
pub mod Closed
use get_exception.Base.{
  Ident, ℕ, ◌+◌, ◌*◌, String, Bool, true, false, not, ◌&&◌, ◌==◌, ◌===◌, string_eq, leb, ltb,
  Option, none, some, List, [], ◌∷◌, ◌++◌, codes,
}
use get_exception.Base.Table.{find_first, update}
use get_exception.Web.AuthError.{auth_error}
use get_exception.Web.Action.{
  Action, ◌>>=◌, ◌>>◌, return, ensure, expect, query, write, transaction, on_error,
}
use get_exception.Web.Workspace.{Db, Bootstrap, SetupSession, inactive, is_set, holds_of, log}
use get_exception.Web.Auth.{Primitives}
use get_exception.Web.Auth.RateLimit.{rate_limit}
use get_exception.Web.Auth.Factor.{denied}

abbrev pub setup_time : ℕ
setup_time = 15 * 60000

-- A bootstrap token that is not spent.
abbrev pub is_bootstrap : Ident → ℕ → Bootstrap → Bool
is_bootstrap hash now b = ltb now b.expires_at && (hash == b.token_hash)

abbrev pub setup_session_of : Ident → List SetupSession → Option SetupSession
setup_session_of hash sessions = find_first (λ s. s.token_hash == hash) sessions

-- The conditions of `setupSession`.
abbrev pub is_setup_open : ℕ → Db → SetupSession → Bool
is_setup_open now db s = not (leb s.expires_at now) && not (is_set db.setting)

module _ (prim : Primitives) where
  -- `access`, `id` and `user` are random.
  unfoldable pub setup_access : List ℕ → List ℕ → List ℕ → Ident → Ident → ℕ → Action (List ℕ)
  setup_access provided ip access id user now = do
    rate_limit prim ip (codes "setup") "setup" now
    db ← query (λ db. db)
    let valid =
        not (is_set db.setting) && holds_of (is_bootstrap (prim.digest provided) now) db.bootstrap
    write (log "setup_access" valid none)
    ensure valid denied
    write (λ db. record db {
      setup_sessions =
          db.setup_sessions
          ++ (record {
            id = id;
            token_hash = prim.digest access;
            user_id = user;
            domain = "";
            email = "";
            password_hash = none;
            pending_ciphertext = none;
            expires_at = now + setup_time;
          }
              ∷ []);
    })
    return access

  unfoldable pub setup_session : List ℕ → ℕ → Action SetupSession
  setup_session access now = do
    db ← query (λ db. db)
    session ← expect (setup_session_of (prim.digest access) db.setup_sessions) denied
    ensure (is_setup_open now db session) denied
    return session

  unfoldable pub prepare_setup :
      String
      → (List ℕ → Bool)
      → (List ℕ → Ident)
      → List ℕ
      → String
      → String
      → List ℕ
      → List ℕ
      → List ℕ
      → ℕ
      → Action (List ℕ)
  unfolding setup_session
  prepare_setup hostname allowed hash access email domain password secret ip now = do
    session ← setup_session access now
    rate_limit prim ip (codes email) "setup_prepare" now
    ensure ((domain === hostname) && allowed password) (auth_error 400 none)
    write (λ db. record db {
      setup_sessions =
          update (λ s. s.id == session.id)
            (λ s. record s {
              email = email;
              domain = domain;
              password_hash = some (hash password);
              pending_ciphertext = some (prim.encrypt secret session.user_id inactive);
            })
            db.setup_sessions;
    })
    write (log "setup_prepare" true none)
    return secret
