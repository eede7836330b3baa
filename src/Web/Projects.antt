-- ===== src/Web/Projects.antt =====
-- apps/web/src/server/projects.ts, with the recovery time of apps/web/src/lib/project-lifecycle.ts.
-- The inputs have passed their schemas. Rows stand in the order of their creation. The address of
-- the ingest service that `createProject` puts a key into is left out.
pub mod Counts
pub mod Steps
pub mod Slugs
pub mod Tests
pub mod Recovery
use get_exception.Base.{
  Ident, ℕ, ◌+◌, ◌*◌, String, Bool, true, false, not, ◌&&◌, ◌==◌, leb, ◌===◌, string_eq, Option,
  none, some, List, [], ◌∷◌, ◌++◌, map,
}
use get_exception.Base.Table.{find_first, count, delete_many, update}
use get_exception.Web.AuthError.{
  AuthError, auth_error, Result, ok, err, ◌>>=◌, ◌>>◌, require, found,
}
use get_exception.Web.Workspace.{Db, Current, Project, is_set, is_deleted, audit}

pub record ProjectInput : Type 0 where
  pub name : String
  pub slug : String
  pub origins : List String

abbrev pub project_recovery_time : ℕ
project_recovery_time = 7 * 86400000

abbrev pub project_purge_at : ℕ → ℕ
project_purge_at deleted_at = deleted_at + project_recovery_time

abbrev is_except : Option Ident → Project → Bool
is_except none p = true
is_except (some id) p = not (p.id == id)

abbrev pub has_slug : Ident → String → Project → Bool
has_slug org slug p = p.organization_id == org && (p.slug === slug)

-- `checkSlug`: the projects that have the slug already, but for the one that may keep it.
abbrev pub takes_slug : Ident → String → Option Ident → Project → Bool
takes_slug org slug except p = has_slug org slug p && is_except except p

abbrev pub check_slug : Db → Ident → String → Option Ident → Result (Unit {0})
check_slug db org slug except =
    require (count (takes_slug org slug except) db.projects == 0)
      (auth_error 409 (some "project_slug"))

abbrev pub is_project : Ident → Ident → Project → Bool
is_project id org p = p.id == id && p.organization_id == org

abbrev pub is_live_project : Ident → Ident → Project → Bool
is_live_project id org p = is_project id org p && not (is_deleted p)

abbrev pub missing : AuthError
missing = auth_error 404 (some "project_missing")

-- `id`, `key_id` and the hash of the key are random.
unfoldable pub create_project :
    ProjectInput → Ident → Ident → Ident → Db → Current → Result (Db × Ident)
create_project input id key_id key_hash db current = do
  let org = current.member.organization_id
  check_slug db org input.slug none
  team ← found (find_first (λ t. t.organization_id == org) db.teams) (auth_error 403 none)
  ok (
    audit "project_create" current.user_id (record db {
      projects =
          db.projects
          ++ (record {
            id = id;
            organization_id = org;
            name = input.name;
            slug = input.slug;
            enabled = true;
            deleted_at = none;
          }
              ∷ []);
      project_origins =
          db.project_origins ++ map (λ o. record { project_id = id; origin = o }) input.origins;
      ingestion_keys =
          db.ingestion_keys
          ++ (record {
            id = key_id;
            project_id = id;
            key_hash = key_hash;
            expires_at = none;
            revoked_at = none;
          }
              ∷ []);
      project_teams = db.project_teams ++ (record { project_id = id; team_id = team.id } ∷ []);
    }),
    id,
  )

unfoldable pub update_project : Ident → ProjectInput → Db → Current → Result (Db × Ident)
update_project id input db current = do
  let org = current.member.organization_id
  project ← found (find_first (is_live_project id org) db.projects) missing
  check_slug db org input.slug (some id)
  ok (
    audit "project_update" current.user_id (record db {
      projects =
          update (λ p. p.id == id) (λ p. record p { name = input.name; slug = input.slug })
            db.projects;
      project_origins =
          delete_many (λ o. o.project_id == id) db.project_origins
          ++ map (λ o. record { project_id = id; origin = o }) input.origins;
    }),
    id,
  )

-- The result is the time of the purge.
unfoldable pub delete_project : Ident → String → ℕ → Db → Current → Result (Db × ℕ)
delete_project id slug now db current = do
  project ←
      found (find_first (is_live_project id current.member.organization_id) db.projects) missing
  require (slug === project.slug) (auth_error 400 (some "project_confirmation"))
  ok (
    audit "project_delete" current.user_id (record db {
      projects =
          update (λ p. p.id == id) (λ p. record p { enabled = false; deleted_at = some now })
            db.projects;
    }),
    project_purge_at now,
  )

unfoldable pub restore_project : Ident → ℕ → Db → Current → Result (Db × Ident)
restore_project id now db current = do
  project ← found (find_first (is_project id current.member.organization_id) db.projects) missing
  deleted_at ← found project.deleted_at missing
  require (not (leb (project_purge_at deleted_at) now)) (auth_error 409 (some "project_expired"))
  ok (
    audit "project_restore" current.user_id (record db {
      projects =
          update (λ p. p.id == id) (λ p. record p { enabled = true; deleted_at = none })
            db.projects;
    }),
    id,
  )
