-- ===== src/Web/Issues.antt =====
-- apps/web/src/server/issue-workflow.ts: `changeIssueStatus`, with `canResolve` and `projectScope` of
-- apps/web/src/server/access.ts. The input has passed its schema.
pub mod Stale
use get_exception.Base.{
  Ident, ℕ, String, Bool, true, false, not, ◌&&◌, ◌||◌, ◌==◌, Option, none, some, List, [], ◌∷◌,
  ◌++◌, any, if◌then◌else◌,
}
use get_exception.Base.Table.{find_first, count, update_many}
use get_exception.Worker.Issue.{Issue, IssueStatus, opened, resolved}
use get_exception.Web.AuthError.{
  AuthError, auth_error, Result, ok, err, ◌>>=◌, ◌>>◌, require, found,
}
use get_exception.Web.Workspace.{
  is_deleted, Role, owner, developer, viewer, Member, Project, Db, Current, is_owner, holds_of,
  audit,
}

abbrev pub can_resolve : Role → Bool
can_resolve owner = true
can_resolve developer = true
can_resolve viewer = false

-- `projectScope`
abbrev pub project_scope : Db → Member → Project → Bool
project_scope db member p =
    p.organization_id == member.organization_id
    && not (is_deleted p)
    && (is_owner member.role
        || any
            (λ l.
              l.project_id == p.id
              && any
                  (λ t.
                    t.team_id == l.team_id
                    && t.member_id == member.id
                    && any (λ m. m.id == t.member_id && m.active) db.members)
                  db.team_members)
            db.project_teams)

-- `where: { id, project: projectScope(member) }`
abbrev pub is_visible : Db → Member → Ident → Issue → Bool
is_visible db member id i =
    i.id == id && any (λ p. p.id == i.project_id && project_scope db member p) db.projects

abbrev pub same_status : IssueStatus → IssueStatus → Bool
same_status opened opened = true
same_status opened resolved = false
same_status resolved opened = false
same_status resolved resolved = true

abbrev pub status_action : IssueStatus → String
status_action opened = "issue_reopen"
status_action resolved = "issue_resolve"

-- The rows that the update takes, and their new state.
abbrev pub is_unchanged : Db → Member → Ident → ℕ → IssueStatus → Issue → Bool
is_unchanged db member id seen_count status i =
    is_visible db member id i && (i.event_count == seen_count) && same_status i.status status

abbrev pub with_status : IssueStatus → Issue → Issue
with_status status i = record i { status = status; regression = false }

unfoldable pub set_status :
    Current → Ident → IssueStatus → ℕ → Issue → Db → List Issue → Result (Db × List Issue)
set_status current id status seen_count issue db issues = do
  let taken = is_unchanged db current.member id seen_count issue.status
  require (count taken issues == 1) (auth_error 409 none)
  ok (
    audit (status_action status) current.user_id db,
    update_many taken (with_status status) issues,
  )

-- `changeIssueStatus`. `authorized` is the answer of `authorize`.
unfoldable pub change_issue_status :
    Result Current → Ident → IssueStatus → ℕ → Db → List Issue → Result (Db × List Issue)
unfolding set_status
change_issue_status authorized id status seen_count db issues = do
  current ← authorized
  require (can_resolve current.member.role) (auth_error 403 none)
  require
      (holds_of (λ m. m.active && can_resolve m.role)
          (find_first (λ m. m.id == current.member.id) db.members)
        && any (λ s. s.id == current.session_id) db.sessions)
      (auth_error 403 none)
  issue ← found (find_first (is_visible db current.member id) issues) (auth_error 404 none)
  require (issue.event_count == seen_count) (auth_error 409 none)
  if same_status issue.status status
      then ok (db, issues)
      else set_status current id status seen_count issue db issues
