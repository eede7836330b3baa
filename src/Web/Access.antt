-- ===== src/Web/Access.antt =====
-- apps/web/src/server/access.ts: `teamScope` and `projectScopeSql`. A scope is the test that a query
-- makes of a row; a join of two tables is the list of the pairs that its condition takes.
pub mod Scopes
pub mod Tests
use get_exception.Base.{
  Bool, true, false, not, ◌&&◌, ◌||◌, ◌==◌, List, [], ◌∷◌, ◌++◌, any, if◌then◌else◌,
}
use get_exception.Web.Workspace.{
  Db, Member, Team, TeamMember, Project, ProjectTeam, is_owner, is_deleted,
}

module _ {A B : Type 0} (on : A → B → Bool) where
  abbrev pub pairs : A → List B → List (A × B)
  pairs x [] = []
  pairs x (y ∷ ys) = if on x y then (x, y) ∷ pairs x ys else pairs x ys

  -- JOIN … ON …
  abbrev pub join : List A → List B → List (A × B)
  join [] ys = []
  join (x ∷ xs) ys = pairs x ys ++ join xs ys

abbrev pub team_scope : Db → Member → Team → Bool
team_scope db member t =
    t.organization_id == member.organization_id
    && (is_owner member.role
        || any
            (λ l.
              l.team_id == t.id
              && l.member_id == member.id
              && any (λ m. m.id == l.member_id && m.active) db.members)
            db.team_members)

-- project_team pt JOIN team_member tm ON … JOIN member m ON …
abbrev pub joined_teams : Db → List ((ProjectTeam × TeamMember) × Member)
joined_teams db =
    join (λ r m. m.id == r.1.member_id)
      (join (λ pt tm. tm.team_id == pt.team_id) db.project_teams db.team_members) db.members

-- `projectScopeSql`
unfoldable pub project_scope_sql : Db → Member → Project → Bool
project_scope_sql db member p =
    p.organization_id == member.organization_id
    && not (is_deleted p)
    && (is_owner member.role
        || any (λ r. r.0.0.project_id == p.id && r.0.1.member_id == member.id && r.1.active)
            (joined_teams db))
