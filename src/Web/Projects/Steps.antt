-- ===== src/Web/Projects/Steps.antt =====
-- What each call does to the identifiers and the slugs of projects.
use get_exception.Base.{
  Ident, ℕ, ◌≤◌, ◌≡◌, ◌≢◌, All, refl, String, true, false, ◌==◌, ◌===◌, string_eq, Option, none,
  some, List, [], ◌∷◌, Bool-cases, Option-cases, inl, inr, arith, ==_iff,
}
use get_exception.Base.Table.{find_first, count}
use get_exception.Base.Table.Keys.{Keyed, Keyed-update, Keyed-append}
use get_exception.Web.AuthError.After.{After}
use get_exception.Web.Workspace.{Db, Current, Project}
use get_exception.Web.Projects.Counts.{
  count-append, count-update_same, count-update_slug, count-update_other, count-update_foreign,
}
use get_exception.Web.Projects.{
  ProjectInput, has_slug, takes_slug, is_live_project, create_project, update_project,
  delete_project, restore_project,
}

pub create-slugs :
    (input : ProjectInput) (id key_id hash : Ident) (db : Db) (current : Current) (org : Ident)
    (slug : String)
    → count (has_slug org slug) db.projects ≤ 1
    → After
        (λ r. count (has_slug org slug) r.0.projects ≤ 1)
        (create_project input id key_id hash db current)
unfolding create_project
create-slugs input id key_id hash db current org slug h =
    let mine = current.member.organization_id in
    let new : Project = record {
      id = id;
      organization_id = mine;
      name = input.name;
      slug = input.slug;
      enabled = true;
      deleted_at = none;
    } in
    ground (
      arith,
      h,
      count-append (has_slug org slug) db.projects new,
      same_slug mine org input.slug slug none db.projects,
    )
  where
    same_slug :
        (mine org : Ident) (my_slug slug : String) (except : Option Ident) (ps : List Project)
        → (mine == org) ≡ true
        → (my_slug === slug) ≡ true
        → count (has_slug org slug) ps ≡ count (takes_slug mine my_slug none) ps
    same_slug mine org my_slug slug except [] e f = refl
    same_slug mine org my_slug slug except (p ∷ ps) e f = ground (
      arith,
      ==_iff mine org,
      e,
      f,
      string_eq.beq_iff my_slug slug,
      same_slug mine org my_slug slug except ps e f,
    )

pub update-slugs :
    (id : Ident) (input : ProjectInput) (db : Db) (current : Current) (org : Ident) (slug : String)
    → Keyed (λ p. p.id) db.projects
    → count (has_slug org slug) db.projects ≤ 1
    → After (λ r. count (has_slug org slug) r.0.projects ≤ 1) (update_project id input db current)
unfolding update_project
update-slugs id input db current org slug k h =
    let mine = current.member.organization_id in
    elim (Option-cases (find_first (is_live_project id mine) db.projects)) [
      | inl missing ↦ rw missing tt
      | inr (p, live) ↦ elim (Bool-cases (mine == org)) [
        | inr foreign ↦
            let few =
              count-update_foreign org mine id slug input.name input.slug p db.projects foreign k
                live in
            rw live (ground (arith, h, few))
        | inl own ↦ elim (Bool-cases (input.slug === slug)) [
          | inr other ↦
              let few = count-update_other org id slug input.name input.slug db.projects other in
              rw live (ground (arith, h, few))
          | inl same ↦
              let few = count-update_slug org id slug input.name input.slug db.projects k in
              let alike = taken_alike id mine org input.slug slug db.projects own same in
              rw live (ground (arith, few, alike))
        ]
      ]
    ]
  where
    taken_alike :
        (id mine org : Ident) (my_slug slug : String) (ps : List Project)
        → (mine == org) ≡ true
        → (my_slug === slug) ≡ true
        → count (takes_slug org slug (some id)) ps ≡ count (takes_slug mine my_slug (some id)) ps
    taken_alike id mine org my_slug slug [] e f = refl
    taken_alike id mine org my_slug slug (p ∷ ps) e f = ground (
      arith,
      ==_iff mine org,
      e,
      f,
      string_eq.beq_iff my_slug slug,
      taken_alike id mine org my_slug slug ps e f,
    )

pub delete-slugs :
    (id : Ident) (confirmed : String) (now : ℕ) (db : Db) (current : Current) (org : Ident)
    (slug : String)
    → After
        (λ r. count (has_slug org slug) r.0.projects ≡ count (has_slug org slug) db.projects)
        (delete_project id confirmed now db current)
unfolding delete_project
delete-slugs id confirmed now db current org slug = ground (
  arith,
  count-update_same org slug (λ p. p.id == id)
      (λ p. record p { enabled = false; deleted_at = some now }) db.projects (λ p. refl),
)

pub restore-slugs :
    (id : Ident) (now : ℕ) (db : Db) (current : Current) (org : Ident) (slug : String)
    → After
        (λ r. count (has_slug org slug) r.0.projects ≡ count (has_slug org slug) db.projects)
        (restore_project id now db current)
unfolding restore_project
restore-slugs id now db current org slug = ground (
  arith,
  count-update_same org slug (λ p. p.id == id) (λ p. record p { enabled = true; deleted_at = none })
      db.projects (λ p. refl),
)

pub create-Keyed :
    (input : ProjectInput) (id key_id hash : Ident) (db : Db) (current : Current)
    → Keyed (λ p. p.id) db.projects
    → All (λ p. p.id ≢ id) db.projects
    → After (λ r. Keyed (λ p. p.id) r.0.projects) (create_project input id key_id hash db current)
unfolding create_project
create-Keyed input id key_id hash db current k fresh =
    let new : Project = record {
      id = id;
      organization_id = current.member.organization_id;
      name = input.name;
      slug = input.slug;
      enabled = true;
      deleted_at = none;
    } in
    let all = Keyed-append (λ p. p.id) new db.projects k fresh in ground (arith, all)

pub update-Keyed :
    (id : Ident) (input : ProjectInput) (db : Db) (current : Current)
    → Keyed (λ p. p.id) db.projects
    → After (λ r. Keyed (λ p. p.id) r.0.projects) (update_project id input db current)
unfolding update_project
update-Keyed id input db current k =
    let all =
      Keyed-update (λ p. p.id) (λ p. p.id == id)
        (λ p. record p { name = input.name; slug = input.slug }) db.projects (λ p. refl) k in
    ground (arith, all)

pub delete-Keyed :
    (id : Ident) (slug : String) (now : ℕ) (db : Db) (current : Current)
    → Keyed (λ p. p.id) db.projects
    → After (λ r. Keyed (λ p. p.id) r.0.projects) (delete_project id slug now db current)
unfolding delete_project
delete-Keyed id slug now db current k =
    let all =
      Keyed-update (λ p. p.id) (λ p. p.id == id)
        (λ p. record p { enabled = false; deleted_at = some now }) db.projects (λ p. refl) k in
    ground (arith, all)

pub restore-Keyed :
    (id : Ident) (now : ℕ) (db : Db) (current : Current)
    → Keyed (λ p. p.id) db.projects
    → After (λ r. Keyed (λ p. p.id) r.0.projects) (restore_project id now db current)
unfolding restore_project
restore-Keyed id now db current k =
    let all =
      Keyed-update (λ p. p.id) (λ p. p.id == id)
        (λ p. record p { enabled = true; deleted_at = none }) db.projects (λ p. refl) k in
    ground (arith, all)
