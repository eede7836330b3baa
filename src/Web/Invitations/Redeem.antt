-- ===== src/Web/Invitations/Redeem.antt =====
-- apps/web/src/server/invitations/service.ts, what the invited do: `find`, `beginRegistration`,
-- `enrollment`, `accept` and `join`.
use get_exception.Base.{
  Ident, ℕ, ◌+◌, String, true, not, ◌&&◌, ◌==◌, leb, none, some, List, [], ◌∷◌, ◌++◌, any, map,
  length, ◌===◌, string_eq,
}
use get_exception.Base.Table.{find_first, count, delete_many, update}
use get_exception.Web.AuthError.{auth_error, Result, ok, ◌>>=◌, ◌>>◌, require, found}
use get_exception.Web.Workspace.{mem, Db, Invitation, accepted, Enrollment, holds_of, audit}
use get_exception.Web.Invitations.{
  is_open, has_hash, with_id, lock, clear_legacy_delivery, enrollment_ttl, is_token,
}

-- `join`. A `member` is the identifier of the new row.
unfoldable pub join : Ident → ℕ → Invitation → Ident → Db → Result Db
join member now invitation user db = do
  let org = invitation.organization_id
  require (not (any (λ m. m.organization_id == org && (m.user_id == user)) db.members))
      (auth_error 409 (some "member_exists"))
  require
      (not (length invitation.teams == 0)
        && (count (λ t. mem t.id invitation.teams && (t.organization_id == org)) db.teams
            == length invitation.teams))
      (auth_error 409 none)
  ok (
      audit "invitation_accept" user (
        clear_legacy_delivery invitation.id (record db {
          members =
              db.members
              ++ (record {
                id = member;
                organization_id = org;
                user_id = user;
                role = invitation.role;
                active = true;
              }
                  ∷ []);
          team_members =
              db.team_members
              ++ map (λ team. record { team_id = team; member_id = member; user_id = user })
                  invitation.teams;
          invitations =
              update (with_id invitation.id)
                (λ i. record i { status = accepted; token_hash = none; accepted_at = some now })
                db.invitations;
          enrollments = delete_many (λ e. e.invitation_id == invitation.id) db.enrollments;
        })))

-- What a registration brings along: a random token, the hash of the password and the sealed secret.
pub record Registration : Type 0 where
  pub token : List ℕ
  pub password_hash : Ident
  pub pending_ciphertext : Ident

module _ (digest : List ℕ → Ident) where
  -- `find`
  unfoldable pub find : List ℕ → ℕ → Db → Result Invitation
  find value now db = do
    require (is_token value) (auth_error 404 none)
    invitation ←
        found (find_first (λ i. has_hash (digest value) i.token_hash) db.invitations)
          (auth_error 410 none)
    require (is_open now invitation) (auth_error 410 none)
    ok invitation

  -- The transaction of `beginRegistration`. The expiry counts from `started`, before the transaction.
  unfoldable pub begin_registration : Ident → List ℕ → Ident → Registration → ℕ → ℕ → Db → Result Db
  unfolding lock
  begin_registration invited value id new now started db = do
    invitation ← lock invited now db
    require (has_hash (digest value) invitation.token_hash) (auth_error 410 none)
    require (not (any (λ u. u.email === invitation.email) db.users))
        (auth_error 409 (some "account_exists"))
    ok (record db {
      enrollments =
          delete_many (λ e. e.invitation_id == invitation.id) db.enrollments
          ++ (record {
            id = id;
            invitation_id = invitation.id;
            revision = invitation.revision;
            token_hash = digest new.token;
            password_hash = new.password_hash;
            pending_ciphertext = new.pending_ciphertext;
            expires_at = started + enrollment_ttl;
          }
              ∷ []);
    })

  -- `enrollment`
  unfoldable pub enrollment : List ℕ → ℕ → Db → Result Enrollment
  enrollment value now db = do
    require (is_token value) (auth_error 410 none)
    e ← found (find_first (λ e. e.token_hash == digest value) db.enrollments) (auth_error 410 none)
    require
        (not (leb e.expires_at now)
          && holds_of (λ i. is_open now i && (e.revision == i.revision))
              (find_first (with_id e.invitation_id) db.invitations))
        (auth_error 410 none)
    ok e

  -- The transaction of `accept`, for the invitation `invited` that `find` gave.
  unfoldable pub accept : Ident → List ℕ → Ident → String → Ident → Ident → ℕ → Db → Result Db
  unfolding lock join
  accept invited value user email session member now db = do
    invitation ← lock invited now db
    require (has_hash (digest value) invitation.token_hash) (auth_error 410 none)
    require (invitation.email === email) (auth_error 403 (some "invitation_email"))
    require (any (λ s. s.id == session) db.sessions) (auth_error 401 none)
    join member now invitation user db
