-- ===== src/Web/Access/Tests.antt =====
-- Runs of the scopes.
use get_exception.Base.{◌≡◌, refl, true, false, [], ◌∷◌}
use get_exception.Web.Workspace.{Db, Member, developer}
use get_exception.Web.Issues.{project_scope}
use get_exception.Web.Fixtures.{bob, before, web}
use get_exception.Web.Access.{project_scope_sql}
use get_exception.Web.Access.Scopes.{project_scope_sql-agrees}

-- The data with one team, bob in it and the project shown to it.
abbrev shown : Db
shown = record before {
  project_teams = record { project_id = web.id; team_id = 90 } ∷ [];
  team_members = record { team_id = 90; member_id = bob.id; user_id = 102 } ∷ [];
}

abbrev dev : Member
dev = record bob { role = developer }

bob_sees : project_scope_sql shown dev web ≡ true
unfolding project_scope_sql
bob_sees = refl

bob_without_team : project_scope_sql (record shown { team_members = [] }) dev web ≡ false
unfolding project_scope_sql
bob_without_team = refl

project_scope_sql-agrees_example : project_scope_sql shown dev web ≡ project_scope shown dev web
project_scope_sql-agrees_example = project_scope_sql-agrees shown dev web
