-- ===== src/Web/Projects/Counts.antt =====
-- How many projects have a slug, before and after an update of one row.
use get_exception.Base.{
  Ident, ◌+◌, ◌≤◌, ◌≡◌, ◌≢◌, All, subst, refl, String, Bool, false, ◌==◌, ◌===◌, string_eq, none,
  some, List, [], ◌∷◌, ◌++◌, Bool-cases, inl, inr, if◌then◌else◌, arith, ==_iff,
}
use get_exception.Base.Table.{find_first, count, update}
use get_exception.Base.Table.Keys.{Keyed}
use get_exception.Web.Workspace.{Project}
use get_exception.Web.Projects.{has_slug, takes_slug, is_live_project}

pub count-append :
    (p : Project → Bool) (ps : List Project) (q : Project)
    → count p (ps ++ (q ∷ [])) ≡ count p ps + (if p q then 1 else 0)
count-append p [] q = ground arith
count-append p (r ∷ ps) q = ground (arith, count-append p ps q)

-- An update that leaves organizations and slugs as they are.
pub count-update_same :
    (org : Ident) (slug : String) (q : Project → Bool) (f : Project → Project) (ps : List Project)
    → ((p : Project) → has_slug org slug (f p) ≡ has_slug org slug p)
    → count (has_slug org slug) (update q f ps) ≡ count (has_slug org slug) ps
count-update_same org slug q f [] h = refl
count-update_same org slug q f (p ∷ ps) h = ground (arith, h p, count-update_same org slug q f ps h)

pub count_others :
    (org id : Ident) (slug : String) (ps : List Project)
    → All (λ p. p.id ≢ id) ps
    → count (has_slug org slug) ps ≡ count (takes_slug org slug (some id)) ps
count_others org id slug [] h = refl
count_others org id slug (p ∷ ps) h =
    ground (arith, ==_iff p.id id, h.0, count_others org id slug ps h.1)

-- A new slug for one row: at most one more has it than those without the row.
pub count-update_slug :
    (org id : Ident) (slug name mine : String) (ps : List Project)
    → Keyed (λ p. p.id) ps
    → count
        (has_slug org slug)
        (update (λ p. p.id == id) (λ p. record p { name = name; slug = mine }) ps)
      ≤ count (takes_slug org slug (some id)) ps + 1
count-update_slug org id slug name mine [] k = omega arith
count-update_slug org id slug name mine (p ∷ ps) k = elim (Bool-cases (p.id == id)) [
  | inl e ↦ ground (
    arith,
    e,
    count_others org id slug ps (subst (λ n. All (λ q. q.id ≢ n) ps) ((==_iff p.id id).0 e) k.0),
  )
  | inr e ↦ ground (arith, e, count-update_slug org id slug name mine ps k.1)
]

pub count-update_other :
    (org id : Ident) (slug name mine : String) (ps : List Project)
    → (mine === slug) ≡ false
    → count
        (has_slug org slug)
        (update (λ p. p.id == id) (λ p. record p { name = name; slug = mine }) ps)
      ≤ count (has_slug org slug) ps
count-update_other org id slug name mine [] h = omega arith
count-update_other org id slug name mine (p ∷ ps) h =
    ground (arith, h, count-update_other org id slug name mine ps h)

pub find_ne :
    (id mine : Ident) (ps : List Project)
    → All (λ p. p.id ≢ id) ps
    → find_first (is_live_project id mine) ps ≡ none
find_ne id mine [] h = refl
find_ne id mine (p ∷ ps) h = ground (arith, h.0, ==_iff p.id id, find_ne id mine ps h.1)

-- The row that an update finds is of its own organization.
pub count-update_foreign :
    (org mine id : Ident) (slug name new : String) (p : Project) (ps : List Project)
    → (mine == org) ≡ false
    → Keyed (λ p. p.id) ps
    → find_first (is_live_project id mine) ps ≡ some p
    → count
        (has_slug org slug)
        (update (λ p. p.id == id) (λ p. record p { name = name; slug = new }) ps)
      ≤ count (has_slug org slug) ps
count-update_foreign org mine id slug name new p [] ne k e = omega arith
count-update_foreign org mine id slug name new p (q ∷ ps) ne k e = elim (Bool-cases (q.id == id)) [
  | inl same ↦ ground (
    arith,
    same,
    ne,
    e,
    ==_iff mine org,
    ==_iff q.organization_id mine,
    ==_iff q.organization_id org,
    find_ne id mine ps (subst (λ n. All (λ q. q.id ≢ n) ps) ((==_iff q.id id).0 same) k.0),
  )
  | inr other ↦
      ground (arith, other, ne, e, count-update_foreign org mine id slug name new p ps ne k.1)
]
