-- ===== src/Web/Invitations/Issue.antt =====
-- apps/web/src/server/invitations/service.ts, what owners do: `create` and `change`.
use get_exception.Base.{
  Ident, ℕ, ◌+◌, String, Bool, true, false, not, ◌&&◌, ◌==◌, leb, ltb, Option, none, some, List, [],
  ◌∷◌, ◌++◌, any, length, string_eq, if◌then◌else◌,
}
use get_exception.Base.Table.{find_first, count, delete_many, update, update_many}
use get_exception.Web.AuthError.{auth_error, Result, ok, ◌>>=◌, ◌>>◌, require, found}
use get_exception.Web.Workspace.{mem, Role, Db, Current, Invitation, pending, revoked, audit}
use get_exception.Web.Invitations.{
  is_for, is_pending, is_renewable, with_id, clear_legacy_delivery, has_member, expire,
  invitation_ttl,
}

pub record InvitationInput : Type 0 where
  pub email : String
  pub role : Role
  pub team_ids : List Ident

pub record Issued : Type 0 where
  pub id : Ident
  pub token : List ℕ
  pub expires_at : ℕ

pub data Change : Type 0 where
  reissue revoke : Change

abbrev pub is_reissue : Change → Bool
is_reissue reissue = true
is_reissue revoke = false

-- An invitation after `change`, with the hash of its new token.
abbrev pub changed : Change → Ident → ℕ → Invitation → Invitation
changed reissue hash now i = record i {
  revision = i.revision + 1;
  status = pending;
  token_hash = some hash;
  expires_at = now + invitation_ttl;
}
changed revoke hash now i = record i {
  revision = i.revision + 1;
  status = revoked;
  token_hash = none;
  expires_at = now + invitation_ttl;
}

-- Another pending invitation to the same address.
abbrev pub is_rival : Invitation → Invitation → Bool
is_rival fresh i =
    is_for fresh.organization_id fresh.email i && is_pending i.status && not (i.id == fresh.id)

-- What `change` does about the other invitations to the address, on a reissue.
abbrev pub make_way : Change → Invitation → ℕ → Db → Result Db
make_way revoke fresh now db = ok db
make_way reissue fresh now db = do
  require (not (has_member fresh.organization_id fresh.email db))
      (auth_error 409 (some "member_exists"))
  require (not (any (λ i. is_rival fresh i && ltb now i.expires_at) db.invitations))
      (auth_error 409 (some "invitation_pending"))
  ok (record db {
    invitations = update_many (λ i. is_rival fresh i && leb i.expires_at now) expire db.invitations;
  })

module _ (digest : List ℕ → Ident) where
  -- `create`
  unfoldable pub create : InvitationInput → Ident → List ℕ → ℕ → Db → Current → Result (Db × Issued)
  create input id value now db current = do
    let org = current.member.organization_id
    let invited = λ (i : Invitation). is_for org input.email i && is_pending i.status
    require
        (count (λ t. mem t.id input.team_ids && (t.organization_id == org)) db.teams
          == length input.team_ids)
        (auth_error 400 none)
    require (not (has_member org input.email db)) (auth_error 409 (some "member_exists"))
    let current_rows = update_many (λ i. invited i && leb i.expires_at now) expire db.invitations
    require (not (any invited current_rows)) (auth_error 409 (some "invitation_pending"))
    ok (
      audit "invitation_create" current.user_id (record db {
        invitations =
            current_rows
            ++ (record {
              id = id;
              organization_id = org;
              inviter_id = current.user_id;
              email = input.email;
              role = input.role;
              status = pending;
              token_hash = some (digest value);
              revision = 1;
              expires_at = now + invitation_ttl;
              accepted_at = none;
              teams = input.team_ids;
            }
                ∷ []);
      }),
      record { id = id; token = value; expires_at = now + invitation_ttl },
    )

  -- `change`; a revoked invitation is not issued.
  unfoldable pub change : Ident → Change → List ℕ → ℕ → Db → Current → Result (Db × Option Issued)
  change id action value now db current = do
    let org = current.member.organization_id
    existing ←
        found (find_first (λ i. i.id == id && (i.organization_id == org)) db.invitations)
          (auth_error 404 none)
    fresh ← found (find_first (with_id id) db.invitations) (auth_error 404 none)
    require (is_renewable fresh.status) (auth_error 409 none)
    ready ← make_way action fresh now db
    let cleared =
        clear_legacy_delivery id (record ready {
          enrollments = delete_many (λ e. e.invitation_id == id) ready.enrollments;
        })
    ok (
      audit (if is_reissue action then "invitation_reissue" else "invitation_revoke")
          current.user_id
          (record cleared {
            invitations =
                update (with_id id) (changed action (digest value) now) cleared.invitations;
          }),
      if is_reissue action
          then some (record { id = id; token = value; expires_at = now + invitation_ttl })
          else none,
    )
