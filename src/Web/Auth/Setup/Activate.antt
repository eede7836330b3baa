-- ===== src/Web/Auth/Setup/Activate.antt =====
-- `finishSetup`: the first owner, the workspace and the end of the setup, in one transaction.
use get_exception.Base.{Ident, ℕ, true, false, ltb, none, some, List, [], ◌∷◌, ◌++◌, map}
use get_exception.Web.AuthError.{failure, Result, ok, ◌>>=◌, ◌>>◌, require, found}
use get_exception.Web.Workspace.{Db, SetupSession, owner, inactive, active, holds_of, log}
use get_exception.Web.Crypto.Totp.{verify_totp}
use get_exception.Web.Auth.{Primitives}
use get_exception.Web.Auth.Factor.{denied}
use get_exception.Web.Auth.Setup.{setup_session_of, is_setup_open}

-- The identifiers that the transaction draws.
pub record FirstIds : Type 0 where
  pub organization : Ident
  pub member : Ident
  pub team : Ident

module _ (prim : Primitives) where
  -- The rows of the first owner, who has the period `counter` as the last one used.
  unfoldable pub establish : FirstIds → List (List ℕ) → SetupSession → Ident → List ℕ → ℕ → Db → Db
  establish ids recovery_codes session password secret counter db =
      let user = session.user_id in
      log "setup_activate" true (some user) (record db {
        users =
            db.users
            ++ (record {
              id = user;
              email = session.email;
              email_verified = true;
              disabled = false;
              two_factor_enabled = true;
            }
                ∷ []);
        accounts = db.accounts ++ (record { user_id = user; password = password } ∷ []);
        organizations = db.organizations ++ (ids.organization ∷ []);
        members =
            db.members
            ++ (record {
              id = ids.member;
              organization_id = ids.organization;
              user_id = user;
              role = owner;
              active = true;
            }
                ∷ []);
        teams =
            db.teams
            ++ (record { id = ids.team; organization_id = ids.organization; name = "Default" }
                ∷ []);
        team_members =
            db.team_members
            ++ (record { team_id = ids.team; member_id = ids.member; user_id = user } ∷ []);
        credentials =
            db.credentials
            ++ (record {
              user_id = user;
              state = active;
              ciphertext = prim.encrypt secret user active;
              last_counter = some counter;
              expires_at = none;
            }
                ∷ []);
        recovery_codes =
            db.recovery_codes
            ++ map (λ code. record { user_id = user; code_hash = prim.digest code; used_at = none })
                recovery_codes;
        setting = some session.domain;
        bootstrap = none;
        setup_sessions = [];
      })

  -- The transaction of `finishSetup`.
  unfoldable pub activate :
      FirstIds → List (List ℕ) → List ℕ → List ℕ → ℕ → Db → Result (Db × List (List ℕ))
  unfolding establish
  activate ids recovery_codes access code now db = do
    require (holds_of (λ b. ltb now b.expires_at) db.bootstrap) denied
    session ← found (setup_session_of (prim.digest access) db.setup_sessions) denied
    require (is_setup_open now db session) denied
    ciphertext ← found session.pending_ciphertext denied
    password ← found session.password_hash denied
    secret ← found (prim.decrypt ciphertext session.user_id inactive) failure
    match ← found (verify_totp prim.hmac secret code none now) failure
    counter ← found match denied
    ok (establish ids recovery_codes session password secret counter db, recovery_codes)
