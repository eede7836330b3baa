-- ===== src/Web/Issues/Stale.antt =====
-- A change of an issue's status loses no event that the worker records meanwhile.
use get_exception.Base.{
  Ident, ℕ, ◌≡◌, ◌≢◌, refl, true, false, not, ◌==◌, ==_iff, none, List, [], ◌∷◌, All, Bool-cases,
  inl, inr, arith,
}
use get_exception.Base.Table.{find_first, update}
use get_exception.Base.Table.Keys.{Keyed}
use get_exception.Worker.Issue.{Issue, IssueStatus, touch, is_issue}
use get_exception.Web.AuthError.{ok, succeeds}
use get_exception.Web.Workspace.{Member, Db, Current, holds_of}
use get_exception.Web.Issues.{is_visible, change_issue_status}

find-ne :
    (db : Db) (member : Member) (id other : Ident) (issues : List Issue)
    → other ≡ id
    → All (λ i. i.id ≢ other) issues
    → find_first (is_visible db member id) issues ≡ none
find-ne db member id other [] e h = refl
find-ne db member id other (i ∷ issues) e h =
    ground (arith, e, h, find-ne db member id other issues e h.1)

counted :
    (db : Db) (member : Member) (id : Ident) (received seen_count : ℕ) (issues : List Issue)
    → Keyed (λ i. i.id) issues
    → holds_of
        (λ i. not (i.event_count == seen_count))
        (find_first (is_visible db member id) issues)
      ≡ false
    → holds_of
        (λ i. i.event_count == seen_count)
        (find_first (is_visible db member id) (update (is_issue id) (touch received) issues))
      ≡ false
unfolding touch
counted db member id received seen_count [] k h = refl
counted db member id received seen_count (i ∷ issues) k h = elim (Bool-cases (i.id == id)) [
  | inl e ↦ ground (arith, e, h, find-ne db member id i.id issues ((==_iff i.id id).0 e) k.0)
  | inr e ↦ ground (arith, e, h, counted db member id received seen_count issues k.1)
]

read_count :
    (current : Current) (id : Ident) (status : IssueStatus) (seen_count : ℕ) (db : Db)
    (issues : List Issue)
    → succeeds (change_issue_status (ok current) id status seen_count db issues) ≡ true
    → holds_of
        (λ i. not (i.event_count == seen_count))
        (find_first (is_visible db current.member id) issues)
      ≡ false
unfolding change_issue_status
read_count current id status seen_count db issues h = ground (arith, h)

refused :
    (current : Current) (id : Ident) (status : IssueStatus) (seen_count : ℕ) (db : Db)
    (issues : List Issue)
    → holds_of
        (λ i. i.event_count == seen_count)
        (find_first (is_visible db current.member id) issues)
      ≡ false
    → succeeds (change_issue_status (ok current) id status seen_count db issues) ≡ false
unfolding change_issue_status
refused current id status seen_count db issues h = ground (arith, h)

-- Where no two issues have the same identifier, a change of an issue's status that could be made is
-- refused once the worker has recorded a further event of that issue: the change names the number of
-- events that its author saw.
pub change_issue_status_stale :
    (current : Current) (id : Ident) (status : IssueStatus) (seen_count received : ℕ) (db : Db)
    (issues : List Issue)
    → Keyed (λ i. i.id) issues
    → succeeds (change_issue_status (ok current) id status seen_count db issues) ≡ true
    → succeeds (
        change_issue_status
          (ok current)
          id
          status
          seen_count
          db
          (update (is_issue id) (touch received) issues))
      ≡ false
change_issue_status_stale current id status seen_count received db issues k h =
    refused current id status seen_count db (update (is_issue id) (touch received) issues) (
      counted db current.member id received seen_count issues k
        (read_count current id status seen_count db issues h))
