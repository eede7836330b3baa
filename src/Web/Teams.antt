-- ===== src/Web/Teams.antt =====
-- apps/web/src/server/members.ts: `saveTeam`. The input has passed its schema: it has no identifier
-- twice.

pub mod Links
use get_exception.Base.{
  Ident, ℕ, String, Bool, true, false, not, ◌&&◌, ◌||◌, ◌==◌, leb, ltb, Option, none, some, List,
  [], ◌∷◌, ◌++◌, any, map, filter, length, ◌===◌, string_eq, if◌then◌else◌,
}
use get_exception.Base.Table.{find_first, count, delete_many, update, update_many}
use get_exception.Web.AuthError.{
  AuthError, auth_error, Result, ok, err, ◌>>=◌, ◌>>◌, require, found,
}
use get_exception.Web.Workspace.{
  is_deleted, mem, Session, Project, TeamMember, ProjectTeam, Role, User, Member, Team, Db, Current,
  Invitation, is_owner, holds_of, user_of, audit,
}

pub record TeamInput : Type 0 where
  pub name : String
  pub member_ids : List Ident
  pub project_ids : List Ident

-- A project that is not deleted.
abbrev pub is_live : List Project → Ident → Bool
is_live projects id = any (λ p. p.id == id && not (is_deleted p)) projects

abbrev pub links : Ident → ProjectTeam → Bool
links project l = l.project_id == project

abbrev pub links_other : Ident → Ident → ProjectTeam → Bool
links_other project team l = l.project_id == project && not (l.team_id == team)

-- A link of the team to a project that the input leaves out and no other team has.
abbrev pub is_last : Db → Ident → List Ident → ProjectTeam → Bool
is_last db team kept l =
    l.team_id == team
    && is_live db.projects l.project_id
    && not (mem l.project_id kept)
    && not (any (links_other l.project_id team) db.project_teams)

abbrev pub is_cut : List Project → Ident → ProjectTeam → Bool
is_cut projects team l = l.team_id == team && is_live projects l.project_id

-- Sessions that end with a change of the team: those of `affected` users who own nothing.
abbrev pub is_ended : List Member → List Ident → Session → Bool
is_ended members affected s =
    mem s.user_id affected
    && not (any (λ m. m.user_id == s.user_id && is_owner m.role && m.active) members)

abbrev pub is_team : Ident → Ident → Team → Bool
is_team id org t = t.id == id && t.organization_id == org

-- `if (teamId) { … } else { … }`: the team that the input is for, rid of its links, or a new one.
unfoldable pub open_team :
    Option Ident → Ident → TeamInput → List Member → Ident → Db → Result (Db × Ident)
open_team none fresh input members org db = ok (
  record db {
    teams = db.teams ++ (record { id = fresh; organization_id = org; name = input.name } ∷ []);
  },
  fresh,
)
open_team (some id) fresh input members org db = do
  team ← found (find_first (is_team id org) db.teams) (auth_error 404 none)
  require (not (any (is_last db id input.project_ids) db.project_teams))
      (auth_error 409 (some "project_team"))
  let former = filter (λ t. t.team_id == id) db.team_members
  let affected = map (λ m. m.user_id) members ++ map (λ t. t.user_id) former
  ok (
    record db {
      teams = update (λ t. t.id == id) (λ t. record t { name = input.name }) db.teams;
      team_members = delete_many (λ t. t.team_id == id) db.team_members;
      project_teams = delete_many (is_cut db.projects id) db.project_teams;
      sessions = delete_many (is_ended db.members affected) db.sessions;
    },
    id,
  )

abbrev pub team_action : Option Ident → String
team_action none = "team_create"
team_action (some id) = "team_update"

-- `saveTeam`; the result is the team.
unfoldable pub save_team : Option Ident → Ident → TeamInput → Db → Current → Result (Db × Ident)
unfolding open_team
save_team id fresh input db current = do
  let org = current.member.organization_id
  let members = filter (λ m. mem m.id input.member_ids && (m.organization_id == org)) db.members
  require
      ((length members == length input.member_ids)
        && (count
              (λ p. mem p.id input.project_ids && (p.organization_id == org) && not (is_deleted p))
              db.projects
            == length input.project_ids))
      (auth_error 400 none)
  (opened, team) ← open_team id fresh input members org db
  ok (
    audit (team_action id) current.user_id (record opened {
      team_members =
          opened.team_members
          ++ map (λ m. record { team_id = team; member_id = m.id; user_id = m.user_id }) members;
      project_teams =
          opened.project_teams
          ++ map (λ p. record { project_id = p; team_id = team }) input.project_ids;
    }),
    team,
  )
