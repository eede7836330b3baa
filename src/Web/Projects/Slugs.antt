-- ===== src/Web/Projects/Slugs.antt =====
-- No two projects of a workspace have the same slug.
use get_exception.Base.{Ident, ℕ, ◌≤◌, ◌≡◌, ◌≢◌, All, String, string_eq, arith}
use get_exception.Base.Table.{count}
use get_exception.Base.Table.Keys.{Keyed}
use get_exception.Web.AuthError.{ok}
use get_exception.Web.AuthError.After.{After-ok}
use get_exception.Web.Workspace.{Db, Current}
use get_exception.Web.Projects.Steps.{
  create-slugs, update-slugs, delete-slugs, restore-slugs, create-Keyed, update-Keyed, delete-Keyed,
  restore-Keyed,
}
use get_exception.Web.Projects.{
  ProjectInput, has_slug, create_project, update_project, delete_project, restore_project,
}

-- Every identifier of a project is its own, and so is its slug in its organization.
pub record IsDistinct (db : Db) : Type 0 where
  pub keyed : Keyed (λ p. p.id) db.projects
  pub slugs : (org : Ident) (slug : String) → count (has_slug org slug) db.projects ≤ 1

-- One call that changes projects, with what it gives.
pub data Change (db : Db) : Db → Type 0 where
  created :
      (input : ProjectInput) (id key_id hash : Ident) (current : Current) (db' : Db) (out : Ident)
      → All (λ p. p.id ≢ id) db.projects
      → create_project input id key_id hash db current ≡ ok (db', out)
      → Change db db'
  updated :
      (id : Ident) (input : ProjectInput) (current : Current) (db' : Db) (out : Ident)
      → update_project id input db current ≡ ok (db', out)
      → Change db db'
  deleted :
      (id : Ident) (slug : String) (now : ℕ) (current : Current) (db' : Db) (out : ℕ)
      → delete_project id slug now db current ≡ ok (db', out)
      → Change db db'
  restored :
      (id : Ident) (now : ℕ) (current : Current) (db' : Db) (out : Ident)
      → restore_project id now db current ≡ ok (db', out)
      → Change db db'

abbrev Few : Ident → String → Db × Ident → Type 0
Few org slug r = count (has_slug org slug) r.0.projects ≤ 1

-- Every call that creates, changes, deletes or restores a project keeps all identifiers of projects
-- distinct, and all slugs of an organization, those of deleted projects included. A created project
-- has a new identifier.
pub Change-IsDistinct : (db db' : Db) → IsDistinct db → Change db db' → IsDistinct db'
Change-IsDistinct db _ v (created input id key_id hash current db' out fresh e) = record {
  keyed =
      After-ok (λ r. Keyed (λ p. p.id) r.0.projects) _ _
        (create-Keyed input id key_id hash db current v.keyed fresh) e;
  slugs = λ org slug.
      After-ok (Few org slug) _ _
        (create-slugs input id key_id hash db current org slug (v.slugs org slug)) e;
}
Change-IsDistinct db _ v (updated id input current db' out e) = record {
  keyed =
      After-ok (λ r. Keyed (λ p. p.id) r.0.projects) _ _ (update-Keyed id input db current v.keyed)
        e;
  slugs = λ org slug.
      After-ok (Few org slug) _ _
        (update-slugs id input db current org slug v.keyed (v.slugs org slug)) e;
}
Change-IsDistinct db _ v (deleted id confirmed now current db' out e) = record {
  keyed =
      After-ok (λ r. Keyed (λ p. p.id) r.0.projects) _ _
        (delete-Keyed id confirmed now db current v.keyed) e;
  slugs = λ org slug.
      let same =
        After-ok
          (λ r. count (has_slug org slug) r.0.projects ≡ count (has_slug org slug) db.projects) _ _
          (delete-slugs id confirmed now db current org slug) e in
      omega (arith, same, v.slugs org slug);
}
Change-IsDistinct db _ v (restored id now current db' out e) = record {
  keyed =
      After-ok (λ r. Keyed (λ p. p.id) r.0.projects) _ _ (restore-Keyed id now db current v.keyed)
        e;
  slugs = λ org slug.
      let same =
        After-ok
          (λ r. count (has_slug org slug) r.0.projects ≡ count (has_slug org slug) db.projects) _ _
          (restore-slugs id now db current org slug) e in
      omega (arith, same, v.slugs org slug);
}
