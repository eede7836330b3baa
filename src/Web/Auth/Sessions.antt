-- ===== src/Web/Auth/Sessions.antt =====
-- `authenticate`, `authenticateEnrollment` and `authorize`, and the hook of
-- apps/web/src/server/identity.ts that guards new sessions. A `Cookie` is what the library's
-- `getSession` reads from the headers: a user and a session. Every role of a stored member is one of
-- the three that `authorize` knows.
use get_exception.Base.{
  Ident, ℕ, ◌-◌, ◌*◌, Bool, true, false, not, ◌&&◌, ◌||◌, ◌==◌, leb, ltb, Option, none, some, List,
  any, if◌then◌else◌,
}
use get_exception.Base.Table.{find_first, update}
use get_exception.Web.AuthError.{auth_error}
use get_exception.Web.Action.{Action, ◌>>=◌, ◌>>◌, return, ensure, expect, query, write}
use get_exception.Web.Workspace.{
  Db, User, Member, Session, MfaMethod, totp, recovery, enrollment, Current, user_of, holds_of,
  is_set,
}

abbrev pub Cookie : Type 0
Cookie = Option (Ident × Ident)

abbrev pub is_factor : Option MfaMethod → Bool
is_factor none = false
is_factor (some totp) = true
is_factor (some recovery) = true
is_factor (some enrollment) = false

abbrev pub is_enrollment : Option MfaMethod → Bool
is_enrollment none = false
is_enrollment (some totp) = false
is_enrollment (some recovery) = false
is_enrollment (some enrollment) = true

abbrev pub is_totp : Option MfaMethod → Bool
is_totp none = false
is_totp (some totp) = true
is_totp (some recovery) = false
is_totp (some enrollment) = false

abbrev pub session_of : List Session → Ident → Option Session
session_of sessions id = find_first (λ s. s.id == id) sessions

abbrev pub is_active_member : Ident → Member → Bool
is_active_member user m = m.user_id == user && m.active

abbrev pub session_time : ℕ
session_time = 8 * 3600000

abbrev pub idle_time : ℕ
idle_time = 30 * 60000

abbrev pub touch_time : ℕ
touch_time = 60000

abbrev pub recent_time : ℕ
recent_time = 300000

-- `databaseHooks.session.create.before`: whether a new session of a user may be stored.
abbrev pub is_session_allowed : Db → Ident → MfaMethod → Option ℕ → Bool
is_session_allowed db user method verified_at =
    holds_of
      (λ u.
        let verified = is_set verified_at && is_factor (some method) in
        let enrolls =
          not u.two_factor_enabled
          && is_enrollment (some method)
          && not (is_set verified_at)
          && any (is_active_member user) db.members in
        not u.disabled
        && u.email_verified
        && not ((not u.two_factor_enabled || not verified) && not enrolls))
      (user_of db.users user)

-- The conditions of `authenticate` on the user and on the session.
abbrev pub is_enabled : User → Bool
is_enabled u = not u.disabled && u.email_verified && u.two_factor_enabled

abbrev pub is_current : ℕ → Session → Bool
is_current now s =
    not (leb s.expires_at now)
    && not (ltb session_time (now - s.created_at))
    && not (ltb idle_time (now - s.last_seen_at))
    && is_set s.mfa_verified_at
    && is_factor s.mfa_method

-- `lastSeenAt` is written once a minute.
abbrev pub see : ℕ → Session → Db → Db
see now s db =
    if ltb touch_time (now - s.last_seen_at)
    then record db {
      sessions = update (λ t. t.id == s.id) (λ t. record t { last_seen_at = now }) db.sessions;
    }
    else db

unfoldable pub authenticate : Cookie → ℕ → Action (User × Session)
authenticate cookie now = do
  (user_id, session_id) ← expect cookie (auth_error 401 none)
  db ← query (λ db. db)
  user ← expect (user_of db.users user_id) (auth_error 401 none)
  session ← expect (session_of db.sessions session_id) (auth_error 401 none)
  ensure (is_enabled user && is_current now session) (auth_error 401 none)
  write (see now session)
  return (user, session)

abbrev pub enrollment_session_time : ℕ
enrollment_session_time = 15 * 60000

-- A user with no second factor yet, who may set one up.
abbrev pub may_enroll : Db → ℕ → User → Session → Bool
may_enroll db now u s =
    not u.disabled
    && not u.two_factor_enabled
    && u.email_verified
    && any (is_active_member u.id) db.members
    && is_enrollment s.mfa_method
    && not (is_set s.mfa_verified_at)
    && not (leb s.expires_at now)
    && not (ltb enrollment_session_time (now - s.created_at))

unfoldable pub authenticate_enrollment : Cookie → ℕ → Action (User × Session)
authenticate_enrollment cookie now = do
  (user_id, session_id) ← expect cookie (auth_error 401 none)
  db ← query (λ db. db)
  user ← expect (user_of db.users user_id) (auth_error 401 none)
  session ← expect (session_of db.sessions session_id) (auth_error 401 none)
  ensure (may_enroll db now user session) (auth_error 401 none)
  return (user, session)

pub record Authorized : Type 0 where
  pub user : User
  pub session : Session
  pub member : Member

abbrev pub current_of : Authorized → Current
current_of a = record { member = a.member; user_id = a.user.id; session_id = a.session.id }

abbrev since : ℕ → Option ℕ → Bool
since now none = false
since now (some t) = not (ltb recent_time (now - t))

-- A second factor within the last five minutes.
abbrev pub is_recent_factor : ℕ → Session → Bool
is_recent_factor now s = is_totp s.mfa_method && since now s.mfa_verified_at

unfoldable pub authorize : Cookie → Bool → ℕ → Action Authorized
unfolding authenticate
authorize cookie recent now = do
  (user, session) ← authenticate cookie now
  db ← query (λ db. db)
  member ← expect (find_first (is_active_member user.id) db.members) (auth_error 403 none)
  ensure (not recent || is_recent_factor now session) (auth_error 428 none)
  return (record { user = user; session = session; member = member })
