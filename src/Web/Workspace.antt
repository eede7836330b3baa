-- ===== src/Web/Workspace.antt =====
-- The tables of the dashboard (Schema), and the guards of apps/web/src/server/access.ts and
-- owner-transaction.ts. `Current` is what `AuthService.authorize` answers: the member may have
-- changed since.
mod Schema
pub use Schema.*
use get_exception.Base.{
  Ident, ℕ, String, Bool, true, false, ◌&&◌, ◌==◌, Option, none, some, List, [], ◌∷◌, ◌++◌, any,
}
use get_exception.Base.Table.{find_first}
use get_exception.Web.AuthError.{auth_error, Result, ◌>>=◌, ◌>>◌, require}

pub record Current : Type 0 where
  pub member : Member
  pub user_id : Ident
  pub session_id : Ident

abbrev pub is_owner : Role → Bool
is_owner owner = true
is_owner developer = false
is_owner viewer = false

-- A condition on a row that is included by a foreign key.
abbrev pub holds_of : {R : Type 0} → (R → Bool) → Option R → Bool
holds_of p none = false
holds_of p (some r) = p r

abbrev pub user_of : List User → Ident → Option User
user_of users id = find_first (λ u. u.id == id) users

abbrev pub is_state : CredentialState → CredentialState → Bool
is_state inactive inactive = true
is_state inactive active = false
is_state active inactive = false
is_state active active = true

-- `AuthService.audit`
abbrev pub log : String → Bool → Option Ident → Db → Db
log action success actor db = record db {
  audit_log = db.audit_log ++ (record { action = action; success = success; actor = actor } ∷ []);
}

abbrev pub audit : String → Ident → Db → Db
audit action actor = log action true (some actor)

abbrev pub is_set : {A : Type 0} → Option A → Bool
is_set none = false
is_set (some a) = true

abbrev pub is_deleted : Project → Bool
is_deleted p = is_set p.deleted_at

abbrev pub is_active_credential : Ident → Credential → Bool
is_active_credential user c = c.user_id == user && is_state active c.state

abbrev pub mem : Ident → List Ident → Bool
mem id ids = any (λ i. i == id) ids

-- `ownerTransaction`. `seen` and `stepped` are the answers of its two calls of `authorize`, the
-- second of which asks for a recent second factor.
unfoldable pub owner_transaction :
    {A : Type 0}
    → Result Current
    → Result Current
    → (Db → Current → Result (Db × A))
    → Db
    → Result (Db × A)
owner_transaction seen stepped action db = do
  first ← seen
  require (is_owner first.member.role) (auth_error 403 none)
  current ← stepped
  require
      (holds_of (λ m. m.active && is_owner m.role)
          (find_first (λ m. m.id == current.member.id) db.members)
        && any (λ s. s.id == current.session_id) db.sessions)
      (auth_error 403 none)
  action db current
