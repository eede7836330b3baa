-- ===== src/Web/Access/Scopes.antt =====
-- The two forms of the scope of projects.
use get_exception.Base.{◌≡◌, refl, ◌∙◌, Bool, ◌&&◌, ◌||◌, ◌==◌, List, [], ◌∷◌, ◌++◌, any, arith}
use get_exception.Web.Workspace.{Db, Member, TeamMember, Project, ProjectTeam}
use get_exception.Web.Issues.{project_scope}
use get_exception.Web.Access.{pairs, join, joined_teams, project_scope_sql}

any-append :
    {A : Type 0} (p : A → Bool) (xs ys : List A) → any p (xs ++ ys) ≡ (any p xs || any p ys)
any-append p [] ys = refl
any-append p (x ∷ xs) ys = ground (arith, any-append p xs ys)

any-ext : {A : Type 0} (p q : A → Bool) (xs : List A) → ((x : A) → p x ≡ q x) → any p xs ≡ any q xs
any-ext p q [] h = refl
any-ext p q (x ∷ xs) h = ground (arith, h x, any-ext p q xs h)

any-and :
    {A : Type 0} (b : Bool) (p : A → Bool) (xs : List A) → any (λ x. b && p x) xs ≡ (b && any p xs)
any-and b p [] = ground arith
any-and b p (x ∷ xs) = ground (arith, any-and b p xs)

module _ {A B : Type 0} (on : A → B → Bool) (p : A × B → Bool) where
  any-pairs : (x : A) (ys : List B) → any p (pairs on x ys) ≡ any (λ y. on x y && p (x, y)) ys
  any-pairs x [] = refl
  any-pairs x (y ∷ ys) = ground (arith, any-pairs x ys)

  any-join :
      (xs : List A) (ys : List B)
      → any p (join on xs ys) ≡ any (λ x. any (λ y. on x y && p (x, y)) ys) xs
  any-join [] ys = refl
  any-join (x ∷ xs) ys =
      ground (arith, any-append p (pairs on x ys) (join on xs ys), any-pairs x ys, any-join xs ys)

module _ (db : Db) (member : Member) (p : Project) where
  abbrev is_hit : (ProjectTeam × TeamMember) × Member → Bool
  is_hit r = r.0.0.project_id == p.id && r.0.1.member_id == member.id && r.1.active

  abbrev is_member : TeamMember → Bool
  is_member t = any (λ m. m.id == t.member_id && m.active) db.members

  member_hit :
      (l : ProjectTeam) (t : TeamMember)
      → any (λ m. m.id == t.member_id && is_hit ((l, t), m)) db.members
        ≡ ((l.project_id == p.id && t.member_id == member.id) && is_member t)
  member_hit l t =
      let b = l.project_id == p.id && t.member_id == member.id in
      any-ext (λ m. m.id == t.member_id && is_hit ((l, t), m))
        (λ m. b && (m.id == t.member_id && m.active)) db.members (λ m. ground arith)
      ∙ any-and b (λ m. m.id == t.member_id && m.active) db.members

  team_hit :
      (l : ProjectTeam)
      → any
          (λ t.
            t.team_id == l.team_id
            && any (λ m. m.id == t.member_id && is_hit ((l, t), m)) db.members)
          db.team_members
        ≡ (l.project_id == p.id
            && any
                (λ t. t.team_id == l.team_id && t.member_id == member.id && is_member t)
                db.team_members)
  team_hit l =
      any-ext
        (λ t.
          t.team_id == l.team_id && any (λ m. m.id == t.member_id && is_hit ((l, t), m)) db.members)
        (λ t.
          l.project_id == p.id
          && (t.team_id == l.team_id && t.member_id == member.id && is_member t))
        db.team_members (λ t. ground (arith, member_hit l t))
      ∙ any-and (l.project_id == p.id)
          (λ t. t.team_id == l.team_id && t.member_id == member.id && is_member t) db.team_members

  joined_hit :
      any is_hit (joined_teams db)
      ≡ any
          (λ l.
            l.project_id == p.id
            && any
                (λ t. t.team_id == l.team_id && t.member_id == member.id && is_member t)
                db.team_members)
          db.project_teams
  joined_hit =
      any-join (λ r m. m.id == r.1.member_id) is_hit
        (join (λ pt tm. tm.team_id == pt.team_id) db.project_teams db.team_members) db.members
      ∙ (any-join (λ pt tm. tm.team_id == pt.team_id)
            (λ r. any (λ m. m.id == r.1.member_id && is_hit (r, m)) db.members) db.project_teams
            db.team_members
          ∙ any-ext _ _ db.project_teams team_hit)

  -- The scope of the list queries, written in SQL, takes the same projects as the scope of all other
  -- queries, for every member and every state of the tables.
  pub project_scope_sql-agrees : project_scope_sql db member p ≡ project_scope db member p
  unfolding project_scope_sql
  project_scope_sql-agrees = ground (arith, joined_hit)
