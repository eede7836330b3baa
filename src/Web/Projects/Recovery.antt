-- ===== src/Web/Projects/Recovery.antt =====
-- A deleted project can be restored for a week.
use get_exception.Base.{
  Ident, ℕ, ◌≡◌, ◌≢◌, All, subst, refl, String, true, false, ◌==◌, ltb, string_eq, none, some, List,
  [], ◌∷◌, Bool-cases, inl, inr, if◌then◌else◌, arith, ==_iff,
}
use get_exception.Base.Table.{find_first, update}
use get_exception.Base.Table.Keys.{Keyed}
use get_exception.Web.AuthError.{auth_error, Result, ok, err}
use get_exception.Web.AuthError.After.{After, After-ok}
use get_exception.Web.Workspace.{Db, Current, Project, is_deleted}
use get_exception.Web.Projects.Counts.{find_ne}
use get_exception.Web.Projects.{is_project, is_live_project, delete_project, restore_project}

abbrev gone : ℕ → Project → Project
gone now p = record p { enabled = false; deleted_at = some now }

abbrev back : Project → Project
back p = record p { enabled = true; deleted_at = none }

back-gone :
    (now : ℕ) (p : Project) → p.enabled ≡ true → is_deleted p ≡ false → back (gone now p) ≡ p
back-gone now p e d = ground (arith, e, d)

find-gone :
    (id org now : ℕ) (p : Project) (ps : List Project)
    → Keyed (λ q. q.id) ps
    → find_first (is_live_project id org) ps ≡ some p
    → find_first (is_project id org) (update (λ q. q.id == id) (gone now) ps) ≡ some (gone now p)
find-gone id org now p [] k e = ground arith
find-gone id org now p (q ∷ ps) k e = elim (Bool-cases (q.id == id)) [
  | inl same ↦ ground (
    arith,
    same,
    e,
    find_ne id org ps (subst (λ n. All (λ q. q.id ≢ n) ps) ((==_iff q.id id).0 same) k.0),
  )
  | inr other ↦ ground (arith, other, e, find-gone id org now p ps k.1)
]

find_rest :
    (id org : Ident) (q p : Project) (ps : List Project)
    → (q.id == id) ≡ false
    → find_first (is_live_project id org) (q ∷ ps) ≡ some p
    → find_first (is_live_project id org) ps ≡ some p
find_rest id org q p ps other e = ground (arith, other, e)

restored :
    (id org now : ℕ) (p : Project) (ps : List Project)
    → Keyed (λ q. q.id) ps
    → find_first (is_live_project id org) ps ≡ some p
    → p.enabled ≡ true
    → update (λ q. q.id == id) back (update (λ q. q.id == id) (gone now) ps) ≡ ps
restored id org now p [] k e h = refl
restored id org now p (q ∷ ps) k e h = elim (Bool-cases (q.id == id)) [
  | inl same ↦ ground (
    arith,
    same,
    e,
    h,
    back-gone now q,
    find_ne id org ps (subst (λ n. All (λ q. q.id ≢ n) ps) ((==_iff q.id id).0 same) k.0),
  )
  | inr other ↦
      let rest = find_rest id org q p ps other e in
      ground (arith, other, restored id org now p ps k.1 rest h)
]

-- The projects that a call leaves, or its error.
abbrev pub projects_of : {A : Type 0} → Result (Db × A) → Result (List Project)
projects_of (ok r) = ok r.0.projects
projects_of (err e) = err e

delete_project-After :
    (id : Ident) (slug : String) (now later : ℕ) (db : Db) (current : Current) (p : Project)
    → Keyed (λ q. q.id) db.projects
    → find_first (is_live_project id current.member.organization_id) db.projects ≡ some p
    → p.enabled ≡ true
    → After
        (λ r. projects_of (restore_project id later r.0 current) ≡ (
          if ltb later r.1 then ok db.projects else err (auth_error 409 (some "project_expired"))))
        (delete_project id slug now db current)
unfolding delete_project restore_project
delete_project-After id slug now later db current p k live enabled =
    let org = current.member.organization_id in
    let found_again = find-gone id org now p db.projects k live in
    let same = restored id org now p db.projects k live enabled in
    rw live (ground (arith, found_again, same))

-- A project that was deleted by its live, enabled row can be restored by an owner until the announced
-- time of its purge, and all projects are then as they were; from that time on it is refused.
pub restore-delete :
    (id : Ident) (slug : String) (now later purge : ℕ) (db db' : Db) (current : Current)
    (p : Project)
    → Keyed (λ q. q.id) db.projects
    → find_first (is_live_project id current.member.organization_id) db.projects ≡ some p
    → p.enabled ≡ true
    → delete_project id slug now db current ≡ ok (db', purge)
    → projects_of (restore_project id later db' current)
      ≡ (if ltb later purge then ok db.projects else err (auth_error 409 (some "project_expired")))
restore-delete id slug now later purge db db' current p k live enabled e =
    After-ok
      (λ r.
        projects_of (restore_project id later r.0 current)
        ≡ (if ltb later r.1 then ok db.projects else err (auth_error 409 (some "project_expired"))))
      _ _ (delete_project-After id slug now later db current p k live enabled) e
