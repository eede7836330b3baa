-- ===== src/Web/Members.antt =====
-- apps/web/src/server/members.ts: `saveMember` and `deleteMember`. The inputs have passed their
-- schemas: they have no identifier twice.
pub mod Owners
pub mod Revoked
use get_exception.Base.{
  Ident, ℕ, String, Bool, true, false, not, ◌&&◌, ◌||◌, ◌==◌, leb, ltb, Option, none, some, List,
  [], ◌∷◌, ◌++◌, any, map, filter, length, ◌===◌, string_eq, if◌then◌else◌,
}
use get_exception.Base.Table.{find_first, count, delete_many, update, update_many}
use get_exception.Web.AuthError.{
  AuthError, auth_error, Result, ok, err, ◌>>=◌, ◌>>◌, require, found,
}
use get_exception.Web.Workspace.{
  is_active_credential, mem, Role, User, Member, Team, Db, Current, Invitation, is_owner, holds_of,
  user_of, audit,
}

pub record MemberInput : Type 0 where
  pub role : Role
  pub active : Bool
  pub team_ids : List Ident

-- The condition on owners who can sign in.
abbrev pub is_usable : List User → Ident → Member → Bool
is_usable users org m =
    m.organization_id == org
    && is_owner m.role
    && m.active
    && holds_of (λ u. not u.disabled) (user_of users m.user_id)

-- The owners that remain if a user goes: they also have a second factor.
abbrev pub remains : List User → Ident → Ident → Member → Bool
remains users org user m =
    m.organization_id == org
    && not (m.user_id == user)
    && is_owner m.role
    && m.active
    && holds_of (λ u. not u.disabled && u.two_factor_enabled) (user_of users m.user_id)

abbrev pub in_organization : Ident → Ident → Member → Bool
in_organization id org m = m.id == id && m.organization_id == org

-- The deletion of a user, with what its foreign keys cascade to.
abbrev pub delete_user : Ident → Db → Db
delete_user user db = record db {
  users = delete_many (λ u. u.id == user) db.users;
  members = delete_many (λ m. m.user_id == user) db.members;
  sessions = delete_many (λ s. s.user_id == user) db.sessions;
  accounts = delete_many (λ a. a.user_id == user) db.accounts;
  credentials = delete_many (λ c. c.user_id == user) db.credentials;
  recovery_codes = delete_many (λ c. c.user_id == user) db.recovery_codes;
  team_members =
      delete_many (λ t. any (λ m. m.id == t.member_id && m.user_id == user) db.members)
        db.team_members;
}

abbrev pub delete_invitations : (Invitation → Bool) → Db → Db
delete_invitations p db = record db {
  invitations = delete_many p db.invitations;
  enrollments =
      delete_many (λ e. any (λ i. i.id == e.invitation_id && p i) db.invitations) db.enrollments;
  verifications = delete_many (λ v. any (λ i. i.id == v && p i) db.invitations) db.verifications;
  mail = delete_many (λ m. any (λ i. i.id == m.invitation_id && p i) db.invitations) db.mail;
}

-- `deleteMember`; the address is the input.
unfoldable pub delete_member : String → Ident → Db → Current → Result (Db × Unit {0})
delete_member email id db current = do
  let org = current.member.organization_id
  member ← found (find_first (in_organization id org) db.members) (auth_error 404 none)
  let user = user_of db.users member.user_id
  require (not (member.user_id == current.user_id)) (auth_error 409 (some "member_self_delete"))
  require (holds_of (λ u. email === u.email) user) (auth_error 400 (some "member_confirmation"))
  require (ltb 0 (count (remains db.users org member.user_id) db.members))
      (auth_error 409 (some "last_owner"))
  let uninvited =
      delete_invitations
        (λ i.
          i.organization_id == org
          && (holds_of (λ u. i.email === u.email) user || (i.inviter_id == member.user_id)))
        db
  ok (audit "member_delete" current.user_id (delete_user member.user_id uninvited), tt)

abbrev pub keeps_last_owner : List User → List Member → MemberInput → Ident → Member → Bool
keeps_last_owner users members input org member = not (
    is_owner member.role
    && member.active
    && (not input.active || not (is_owner input.role))
    && leb (count (is_usable users org) members) 1)

-- `saveMember`; the result tells whether the actor is signed out.
unfoldable pub save_member : MemberInput → Ident → Db → Current → Result (Db × Bool)
save_member input id db current = do
  let org = current.member.organization_id
  member ← found (find_first (in_organization id org) db.members) (auth_error 404 none)
  require
      (count (λ t. mem t.id input.team_ids && (t.organization_id == org)) db.teams
        == length input.team_ids)
      (auth_error 400 none)
  require (keeps_last_owner db.users db.members input org member)
      (auth_error 409 (some "last_owner"))
  require
      (not (
        is_owner input.role
        && input.active
        && (not (holds_of (λ u. u.two_factor_enabled) (user_of db.users member.user_id))
            || not (any (is_active_credential member.user_id) db.credentials))))
      (auth_error 409 (some "owner_mfa"))
  ok (
    audit "member_update" current.user_id (record db {
      members =
          update (λ m. m.id == id) (λ m. record m { role = input.role; active = input.active })
            db.members;
      team_members =
          delete_many (λ t. t.member_id == id) db.team_members
          ++ map (λ team. record { team_id = team; member_id = id; user_id = member.user_id })
              input.team_ids;
      sessions = delete_many (λ s. s.user_id == member.user_id) db.sessions;
    }),
    member.user_id == current.user_id,
  )
