-- ===== src/Web/Members/Revoked.antt =====
-- What a member whose rights are withdrawn has left.
use get_exception.Base.{
  Ident, ◌≡◌, refl, Bool, false, ◌&&◌, ◌||◌, ◌==◌, some, List, [], ◌∷◌, any, Bool-cases,
  Option-cases, inl, inr, arith, String, ◌===◌, string_eq,
}
use get_exception.Base.Table.{find_first, delete_many, update}
use get_exception.Web.AuthError.{Result, ok, succeeds}
use get_exception.Web.AuthError.After.{After, After-ok}
use get_exception.Web.Workspace.{
  Member, User, Role, Db, Current, is_owner, holds_of, user_of, owner_transaction,
}
use get_exception.Web.Members.{MemberInput, in_organization, save_member, delete_member}

any-delete_many : {R : Type 0} (p : R → Bool) (rs : List R) → any p (delete_many p rs) ≡ false
any-delete_many p [] = refl
any-delete_many p (r ∷ rs) = elim (Bool-cases (p r)) [
  | inl e ↦ rw e (any-delete_many p rs)
  | inr e ↦ rw e (rw e (any-delete_many p rs))
]

-- The member whom the id names is no active owner.
abbrev pub is_active_owner : Ident → List Member → Bool
is_active_owner id ms =
    holds_of (λ m. m.active && is_owner m.role) (find_first (λ m. m.id == id) ms)

is_active_owner-update :
    (id : Ident) (role : Role) (active : Bool) (ms : List Member)
    → (active && is_owner role) ≡ false
    → is_active_owner id
        (update (λ m. m.id == id) (λ m. record m { role = role; active = active }) ms)
      ≡ false
is_active_owner-update id role active [] h = refl
is_active_owner-update id role active (m ∷ ms) h =
    ground (arith, h, is_active_owner-update id role active ms h)

save_member-After :
    (id : Ident) (input : MemberInput) (db : Db) (current : Current)
    → (input.active && is_owner input.role) ≡ false
    → After (λ r. is_active_owner id r.0.members ≡ false) (save_member input id db current)
unfolding save_member
save_member-After id input db current h =
    elim (Option-cases
      (find_first (in_organization id current.member.organization_id) db.members)) [
        | inl none_found ↦ rw none_found tt
        | inr (m, at) ↦
            rw at
              (ground (arith, h, is_active_owner-update id input.role input.active db.members h))
      ]

denied :
    {A : Type 0} (seen : Result Current) (stale : Current) (action : Db → Current → Result (Db × A))
    (db : Db)
    → is_active_owner stale.member.id db.members ≡ false
    → succeeds (owner_transaction seen (ok stale) action db) ≡ false
unfolding owner_transaction
denied seen stale action db h = ground (arith, h)

-- Once a member is saved without the role of an active owner, every owner's transaction that it still
-- asks for is refused, even if it was authorized before as an owner.
pub save_member_denied :
    {A : Type 0} (input : MemberInput) (db db' : Db) (current stale : Current) (out : Bool)
    (seen : Result Current) (action : Db → Current → Result (Db × A))
    → (input.active && is_owner input.role) ≡ false
    → save_member input stale.member.id db current ≡ ok (db', out)
    → succeeds (owner_transaction seen (ok stale) action db') ≡ false
save_member_denied input db db' current stale out seen action h e =
    denied seen stale action db'
      (After-ok _ _ _ (save_member-After stale.member.id input db current h) e)

-- What could give a user access again: a session, a membership, a second factor, a password, an account, an
-- invitation to the address or by the user.
abbrev pub has_access : Ident → String → Ident → Db → Bool
has_access user email org db =
    any (λ s. s.user_id == user) db.sessions
    || any (λ m. m.user_id == user) db.members
    || any (λ c. c.user_id == user) db.credentials
    || any (λ c. c.user_id == user) db.recovery_codes
    || any (λ a. a.user_id == user) db.accounts
    || any (λ u. u.id == user) db.users
    || any (λ i. i.organization_id == org && ((i.email === email) || (i.inviter_id == user)))
        db.invitations

delete_member-After :
    (id : Ident) (email : String) (db : Db) (current : Current) (m : Member) (u : User)
    → find_first (in_organization id current.member.organization_id) db.members ≡ some m
    → user_of db.users m.user_id ≡ some u
    → After
        (λ r. has_access m.user_id u.email current.member.organization_id r.0 ≡ false)
        (delete_member email id db current)
unfolding delete_member
delete_member-After id email db current m u at is =
    let org = current.member.organization_id in
    rw (at, is)
      (ground (
        arith,
        any-delete_many (λ s. s.user_id == m.user_id) db.sessions,
        any-delete_many (λ s. s.user_id == m.user_id) db.members,
        any-delete_many (λ s. s.user_id == m.user_id) db.credentials,
        any-delete_many (λ s. s.user_id == m.user_id) db.recovery_codes,
        any-delete_many (λ s. s.user_id == m.user_id) db.accounts,
        any-delete_many (λ s. s.id == m.user_id) db.users,
        any-delete_many
            (λ i.
              i.organization_id == org && ((i.email === u.email) || (i.inviter_id == m.user_id)))
            db.invitations,
      ))

-- After a member is deleted its user has no session, membership, second factor, password or account, and the
-- workspace no invitation to its address or by it.
pub has_access-delete_member :
    (id : Ident) (email : String) (db db' : Db) (current : Current) (m : Member) (u : User)
    → find_first (in_organization id current.member.organization_id) db.members ≡ some m
    → user_of db.users m.user_id ≡ some u
    → delete_member email id db current ≡ ok (db', tt)
    → has_access m.user_id u.email current.member.organization_id db' ≡ false
has_access-delete_member id email db db' current m u at is e =
    After-ok _ _ _ (delete_member-After id email db current m u at is) e
