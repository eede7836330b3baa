-- ===== src/Web/Invitations/Finish.antt =====
-- The transaction of `finishRegistration`: a new user, its second factor, membership and session.
use get_exception.Base.{
  Ident, ℕ, true, false, not, ◌===◌, string_eq, any, none, some, List, [], ◌∷◌, ◌++◌, map,
}
use get_exception.Web.AuthError.{auth_error, failure, Result, ◌>>=◌, ◌>>◌, require, found}
use get_exception.Web.Workspace.{Db, Invitation, Session, totp, inactive, active}
use get_exception.Web.Crypto.Totp.{verify_totp}
use get_exception.Web.Auth.{Primitives}
use get_exception.Web.Auth.Factor.{denied}
use get_exception.Web.Auth.Enter.{create_session}
use get_exception.Web.Invitations.{lock}
use get_exception.Web.Invitations.Redeem.{enrollment, join}

-- The identifiers that the transaction draws.
pub record NewIds : Type 0 where
  pub user : Ident
  pub member : Ident
  pub session : Ident

module _ (prim : Primitives) where
  -- The rows of the new user, who has the period `counter` as the last one used.
  unfoldable pub add_user : NewIds → Invitation → Ident → List ℕ → ℕ → List (List ℕ) → Db → Db
  add_user ids invitation password secret counter recovery_codes db = record db {
    users =
        db.users
        ++ (record {
          id = ids.user;
          email = invitation.email;
          email_verified = true;
          disabled = false;
          two_factor_enabled = true;
        }
            ∷ []);
    accounts = db.accounts ++ (record { user_id = ids.user; password = password } ∷ []);
    credentials =
        db.credentials
        ++ (record {
          user_id = ids.user;
          state = active;
          ciphertext = prim.encrypt secret ids.user active;
          last_counter = some counter;
          expires_at = none;
        }
            ∷ []);
    recovery_codes =
        db.recovery_codes
        ++ map (λ code. record { user_id = ids.user; code_hash = prim.digest code; used_at = none })
            recovery_codes;
  }

  -- `invited` is the invitation of the enrollment that was found before.
  unfoldable pub finish_registration :
      NewIds → List (List ℕ) → Ident → List ℕ → List ℕ → ℕ → Db → Result (Db × Session)
  unfolding lock enrollment join create_session add_user
  finish_registration ids recovery_codes invited value code now db = do
    invitation ← lock invited now db
    e ← enrollment prim.digest value now db
    require (not (any (λ u. u.email === invitation.email) db.users))
        (auth_error 409 (some "account_exists"))
    secret ← found (prim.decrypt e.pending_ciphertext e.id inactive) failure
    match ← found (verify_totp prim.hmac secret code none now) failure
    counter ← found match denied
    joined ←
        join ids.member now invitation ids.user
          (add_user ids invitation e.password_hash secret counter recovery_codes db)
    create_session prim ids.session ids.user totp now joined
