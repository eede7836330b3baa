-- ===== src/Web/Members/Owners.antt =====
-- A workspace does not lose its last owner.
use get_exception.Base.{
  Ident, ◌+◌, ◌≤◌, ◌≡◌, refl, subst, sym, Bool, false, not, ◌&&◌, ◌||◌, ◌==◌, Option, none, some,
  List, [], ◌∷◌, Option-cases, inl, inr, arith, String, string_eq,
}
use get_exception.Base.Table.{find_first, count, delete_many, update}
use get_exception.Web.AuthError.{Result, ok}
use get_exception.Web.AuthError.After.{After, After-ok}
use get_exception.Web.Workspace.{
  Member, User, Role, Db, Current, is_owner, user_of, owner_transaction,
}
use get_exception.Web.Teams.{TeamInput, save_team, open_team, is_team}
use get_exception.Web.Members.{
  MemberInput, is_usable, remains, in_organization, save_member, delete_member,
}

-- The organization has an owner who is active and whose user is not disabled.
abbrev pub HasOwner : Ident → Db → Type 0
HasOwner org db = 1 ≤ count (is_usable db.users org) db.members

count-update :
    (p q : Member → Bool) (f : Member → Member) (ms : List Member)
    → count p ms ≤ count p (update q f ms) + 1
count-update p q f [] = omega arith
count-update p q f (m ∷ ms) = ground (arith, count-update p q f ms)

-- Setting the found member's role and state loses no owner, if it was none or stays one.
count-update_found :
    (users : List User) (org id : Ident) (role : Role) (active : Bool) (ms : List Member)
    (found_member : Member)
    → find_first (in_organization id org) ms ≡ some found_member
    → (is_owner found_member.role && found_member.active && (not active || not (is_owner role)))
      ≡ false
    → count (is_usable users org) ms
      ≤ count
          (is_usable users org)
          (update (λ m. m.id == id) (λ m. record m { role = role; active = active }) ms)
count-update_found users org id role active [] x e h = omega arith
count-update_found users org id role active (m ∷ ms) x e h =
    ground (arith, e, h, count-update_found users org id role active ms x)

find-delete :
    (user id : Ident) (users : List User)
    → (id == user) ≡ false
    → user_of (delete_many (λ u. u.id == user) users) id ≡ user_of users id
find-delete user id [] h = refl
find-delete user id (u ∷ us) h = ground (arith, h, find-delete user id us h)

count-delete :
    (users : List User) (org user : Ident) (ms : List Member)
    → count (remains users org user) ms
      ≤ count
          (is_usable (delete_many (λ u. u.id == user) users) org)
          (delete_many (λ m. m.user_id == user) ms)
count-delete users org user [] = omega arith
count-delete users org user (m ∷ ms) =
    ground (arith, find-delete user m.user_id users, count-delete users org user ms)

save_member-After :
    (id : Ident) (input : MemberInput) (db : Db) (current : Current)
    → HasOwner current.member.organization_id db
    → After (λ r. HasOwner current.member.organization_id r.0) (save_member input id db current)
unfolding save_member
save_member-After id input db current h =
    let org = current.member.organization_id in
    let f =
      count-update (is_usable db.users org) (λ m. m.id == id)
        (λ m. record m { role = input.role; active = input.active }) db.members in
    elim (Option-cases (find_first (in_organization id org) db.members)) [
      | inl none_found ↦ rw none_found tt
      | inr (m, at) ↦ rw at (
          ground (
            arith,
            h,
            f,
            count-update_found db.users org id input.role input.active db.members m at,
          ))
    ]

delete_member-After :
    (id : Ident) (email : String) (db : Db) (current : Current)
    → After (λ r. HasOwner current.member.organization_id r.0) (delete_member email id db current)
unfolding delete_member
delete_member-After id email db current =
    let org = current.member.organization_id in
    elim (Option-cases (find_first (in_organization id org) db.members)) [
      | inl none_found ↦ rw none_found tt
      | inr (m, at) ↦ rw at (ground (arith, count-delete db.users org m.user_id db.members))
    ]

save_team-After :
    (id : Option Ident) (fresh : Ident) (input : TeamInput) (db : Db) (current : Current)
    → HasOwner current.member.organization_id db
    → After (λ r. HasOwner current.member.organization_id r.0) (save_team id fresh input db current)
unfolding save_team open_team
save_team-After none fresh input db current h = ground (arith, h)
save_team-After (some id) fresh input db current h =
    elim (Option-cases (find_first (is_team id current.member.organization_id) db.teams)) [
      | inl none_found ↦ rw none_found (ground (arith, h))
      | inr (t, at) ↦ rw at (ground (arith, h))
    ]

owner_transaction-After :
    {A : Type 0} (P : Db → Type 0) (seen : Result Current) (current : Current)
    (action : Db → Current → Result (Db × A)) (db : Db)
    → After (λ r. P r.0) (action db current)
    → After (λ r. P r.0) (owner_transaction seen (ok current) action db)
unfolding owner_transaction
owner_transaction-After P seen current action db h = ground (arith, h)

-- One transaction of an owner of the organization, with any answers of the authorization before it.
pub data Step (org : Ident) (db : Db) : Db → Type 0 where
  member_saved :
      (seen : Result Current) (current : Current) (id : Ident) (input : MemberInput) (db' : Db)
      (out : Bool)
      → current.member.organization_id ≡ org
      → owner_transaction seen (ok current) (save_member input id) db ≡ ok (db', out)
      → Step org db db'
  member_deleted :
      (seen : Result Current) (current : Current) (id : Ident) (email : String) (db' : Db)
      → current.member.organization_id ≡ org
      → owner_transaction seen (ok current) (delete_member email id) db ≡ ok (db', tt)
      → Step org db db'
  team_saved :
      (seen : Result Current) (current : Current) (id : Option Ident) (fresh : Ident)
      (input : TeamInput) (db' : Db) (team : Ident)
      → current.member.organization_id ≡ org
      → owner_transaction seen (ok current) (save_team id fresh input) db ≡ ok (db', team)
      → Step org db db'

pub data Reach (org : Ident) (db : Db) : Db → Type 0 where
  start : Reach org db db
  next : (db' db'' : Db) → Reach org db db' → Step org db' db'' → Reach org db db''

Step-HasOwner : (org : Ident) (db db' : Db) → Step org db db' → HasOwner org db → HasOwner org db'
Step-HasOwner org db _ (member_saved seen current id input db' out e s) h =
    let h' = subst (λ o. HasOwner o db) (sym e) h in
    subst (λ o. HasOwner o db') e
      (After-ok _ _ _
        (owner_transaction-After (HasOwner current.member.organization_id) seen current
          (save_member input id) db (save_member-After id input db current h'))
        s)
Step-HasOwner org db _ (member_deleted seen current id email db' e s) h =
    subst (λ o. HasOwner o db') e
      (After-ok _ _ _
        (owner_transaction-After (HasOwner current.member.organization_id) seen current
          (delete_member email id) db (delete_member-After id email db current))
        s)
Step-HasOwner org db _ (team_saved seen current id fresh input db' team e s) h =
    let h' = subst (λ o. HasOwner o db) (sym e) h in
    subst (λ o. HasOwner o db') e
      (After-ok _ _ _
        (owner_transaction-After (HasOwner current.member.organization_id) seen current
          (save_team id fresh input) db (save_team-After id fresh input db current h'))
        s)

-- A workspace with an active owner whose user is not disabled has one after any sequence of calls of
-- `saveMember`, `deleteMember` and `saveTeam` by its own owners, whatever the calls ask for.
pub Reach-HasOwner :
    (org : Ident) (db db' : Db) → HasOwner org db → Reach org db db' → HasOwner org db'
Reach-HasOwner org db _ h start = h
Reach-HasOwner org db _ h (next db' db'' r s) =
    Step-HasOwner org db' db'' s (Reach-HasOwner org db db' h r)
