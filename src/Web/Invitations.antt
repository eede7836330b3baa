-- ===== src/Web/Invitations.antt =====
-- apps/web/src/server/invitations/service.ts: invitations, from their creation to the membership.
-- The inputs have passed their schemas. Random identifiers and tokens are arguments, a token is its
-- code units, and SHA-256 (`digest` of crypto.ts) is a parameter. Times are milliseconds.
pub mod Issue
pub mod Redeem
pub mod Finish
pub mod Register
pub mod Once
pub mod Redeemed
pub mod Pending
use get_exception.Base.{
  Ident, ℕ, ◌+◌, ◌*◌, String, Bool, true, false, not, ◌&&◌, ◌||◌, ◌==◌, leb, ltb, Option, none,
  some, List, [], ◌∷◌, ◌++◌, any, all, map, length, ◌===◌, string_eq, if◌then◌else◌,
}
use get_exception.Base.Table.{find_first, count, delete_many, update, update_many}
use get_exception.Web.AuthError.{
  AuthError, auth_error, Result, ok, err, ◌>>=◌, ◌>>◌, require, found,
}
use get_exception.Web.Workspace.{
  mem, Role, User, Member, Team, Db, Current, Invitation, InvitationStatus, pending, accepted,
  expired, revoked, Enrollment, Mail, MailStatus, waiting, sending, cancelled, finished, is_owner,
  holds_of, user_of, audit,
}

abbrev pub invitation_ttl : ℕ
invitation_ttl = 24 * 3600000

abbrev pub enrollment_ttl : ℕ
enrollment_ttl = 15 * 60000

-- /^[a-f0-9]{64}$/
abbrev is_hex : ℕ → Bool
is_hex c = (leb 97 c && leb c 102) || (leb 48 c && leb c 57)

abbrev pub is_token : List ℕ → Bool
is_token value = all is_hex value && (length value == 64)

abbrev pub is_pending : InvitationStatus → Bool
is_pending pending = true
is_pending accepted = false
is_pending expired = false
is_pending revoked = false

-- `["pending", "expired"].includes(status)`
abbrev pub is_renewable : InvitationStatus → Bool
is_renewable pending = true
is_renewable accepted = false
is_renewable expired = true
is_renewable revoked = false

abbrev pub is_open : ℕ → Invitation → Bool
is_open now i = is_pending i.status && not (leb i.expires_at now)

-- The hash of a row is the hash of a token.
abbrev pub has_hash : Ident → Option Ident → Bool
has_hash hash none = false
has_hash hash (some h) = h == hash

abbrev pub with_id : Ident → Invitation → Bool
with_id id i = i.id == id

-- `lock`
unfoldable pub lock : Ident → ℕ → Db → Result Invitation
lock id now db = do
  invitation ← found (find_first (with_id id) db.invitations) (auth_error 404 none)
  require (is_open now invitation) (auth_error 410 none)
  ok invitation

abbrev is_unsent : MailStatus → Bool
is_unsent waiting = true
is_unsent sending = true
is_unsent cancelled = false
is_unsent finished = false

-- `clearLegacyDelivery`
abbrev pub clear_legacy_delivery : Ident → Db → Db
clear_legacy_delivery id db = record db {
  verifications = delete_many (λ v. v == id) db.verifications;
  mail =
      update_many (λ m. m.invitation_id == id && not (is_unsent m.status))
        (λ m. record m { payload = none; lease_token = none; lease_until = none })
        (update_many (λ m. m.invitation_id == id && is_unsent m.status)
          (λ m. record m {
            payload = none;
            status = cancelled;
            lease_token = none;
            lease_until = none;
          })
          db.mail);
}

abbrev pub is_for : Ident → String → Invitation → Bool
is_for org email i = i.organization_id == org && (i.email === email)

abbrev pub has_member : Ident → String → Db → Bool
has_member org email db =
    any
      (λ m.
        m.organization_id == org && holds_of (λ u. u.email === email) (user_of db.users m.user_id))
      db.members

abbrev pub expire : Invitation → Invitation
expire i = record i { status = expired; token_hash = none }
