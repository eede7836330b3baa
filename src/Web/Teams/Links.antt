-- ===== src/Web/Teams/Links.antt =====
-- A change of a team leaves no live project without a team.
use get_exception.Base.{
  Ident, ◌≡◌, refl, ap, ==_iff, Bool, true, false, not, ◌&&◌, ◌||◌, ◌==◌, Option, none, some, List,
  [], ◌∷◌, ◌++◌, any, map, Bool-cases, Option-cases, inl, inr, arith,
}
use get_exception.Base.Table.{find_first, delete_many}
use get_exception.Web.AuthError.{ok}
use get_exception.Web.AuthError.After.{After, After-ok}
use get_exception.Web.Workspace.{Project, ProjectTeam, Db, Current, mem}
use get_exception.Web.Teams.{
  TeamInput, is_live, links, links_other, is_last, is_cut, is_team, open_team, save_team,
}

any-append :
    (p : ProjectTeam → Bool) (xs ys : List ProjectTeam) → any p (xs ++ ys) ≡ (any p xs || any p ys)
any-append p [] ys = refl
any-append p (x ∷ xs) ys = ground (arith, any-append p xs ys)

any-new :
    (project team : Ident) (ids : List Ident)
    → any (links project) (map (λ p. record { project_id = p; team_id = team }) ids)
      ≡ mem project ids
any-new project team [] = refl
any-new project team (i ∷ ids) = ground (arith, any-new project team ids)

-- A link of another team is not cut.
other_stays :
    (projects : List Project) (project team : Ident) (xs : List ProjectTeam)
    → any (links_other project team) xs ≡ true
    → any (links project) (delete_many (is_cut projects team) xs) ≡ true
other_stays projects project team [] h = ground arith
other_stays projects project team (x ∷ xs) h =
    ground (arith, h, other_stays projects project team xs)

last_of :
    (db : Db) (project team : Ident) (kept : List Ident) (x : ProjectTeam)
    → x.project_id ≡ project
    → is_last db team kept x ≡ (
        x.team_id == team
        && is_live db.projects project
        && not (mem project kept)
        && not (any (links_other project team) db.project_teams))
last_of db project team kept x e =
    ap
      (λ p.
        x.team_id == team
        && is_live db.projects p
        && not (mem p kept)
        && not (any (links_other p team) db.project_teams))
      e

cut_of :
    (projects : List Project) (project team : Ident) (x : ProjectTeam)
    → x.project_id ≡ project
    → is_cut projects team x ≡ (x.team_id == team && is_live projects project)
cut_of projects project team x e = ap (λ p. x.team_id == team && is_live projects p) e

-- What is left of a project's links, if the last ones are not among the team's.
link_stays :
    (db : Db) (project team : Ident) (kept : List Ident) (xs : List ProjectTeam)
    → mem project kept ≡ false
    → any (is_last db team kept) xs ≡ false
    → any (links project) xs ≡ true
    → (any (links project) (delete_many (is_cut db.projects team) xs)
        || any (links_other project team) db.project_teams)
      ≡ true
link_stays db project team kept [] m h e = ground arith
link_stays db project team kept (x ∷ xs) m h e = elim (Bool-cases (x.project_id == project)) [
  | inl same ↦
      let eq = (==_iff x.project_id project).0 same in
      ground (
        arith,
        m,
        h,
        e,
        same,
        last_of db project team kept x eq,
        cut_of db.projects project team x eq,
        link_stays db project team kept xs m,
      )
  | inr other ↦ ground (arith, m, h, e, other, link_stays db project team kept xs m)
]

-- Every project of `project_teams` that is linked stays linked, whatever team is saved.
save_team-After :
    (id : Option Ident) (fresh project : Ident) (input : TeamInput) (db : Db) (current : Current)
    → any (links project) db.project_teams ≡ true
    → After
        (λ r. any (links project) r.0.project_teams ≡ true)
        (save_team id fresh input db current)
unfolding save_team open_team
save_team-After none fresh project input db current h = ground (
  arith,
  h,
  any-append (links project) db.project_teams
      (map (λ p. record { project_id = p; team_id = fresh }) input.project_ids),
)
save_team-After (some id) fresh project input db current h =
    elim (Option-cases (find_first (is_team id current.member.organization_id) db.teams)) [
      | inl none_found ↦ rw none_found (ground (arith, h))
      | inr (t, at) ↦ rw at (
          ground (
            arith,
            h,
            any-append (links project) (delete_many (is_cut db.projects id) db.project_teams)
                (map (λ p. record { project_id = p; team_id = id }) input.project_ids),
            any-new project id input.project_ids,
            other_stays db.projects project id db.project_teams,
            link_stays db project id input.project_ids db.project_teams,
          ))
    ]

-- A project that has a team has one after any team is saved.
pub save_team_keeps_links :
    (id : Option Ident) (fresh project team : Ident) (input : TeamInput) (db db' : Db)
    (current : Current)
    → any (links project) db.project_teams ≡ true
    → save_team id fresh input db current ≡ ok (db', team)
    → any (links project) db'.project_teams ≡ true
save_team_keeps_links id fresh project team input db db' current h e =
    After-ok _ _ _ (save_team-After id fresh project input db current h) e
