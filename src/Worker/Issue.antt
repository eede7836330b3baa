-- ===== src/Worker/Issue.antt =====
-- apps/worker/src/events.ts, the issue part of the transaction of `processJob`. The trigger
-- `issue_chronology` of the database is part of an issue's update.
use get_exception.Base.{
  ℕ, ◌+◌, min, max, Bool, true, false, not, ◌&&◌, Option, none, some, List, [], ◌∷◌, ◌++◌, leb,
  ◌==◌, string_eq, if◌then◌else◌, String,
}
use get_exception.Base.Table.{update, find_first}
use get_exception.Base.{Ident}
use get_exception.Worker.History.{History, history_time}

pub data IssueStatus : Type 0 where
  opened resolved : IssueStatus

pub record Issue : Type 0 where
  pub id : Ident
  pub project_id : Ident
  pub fingerprint : Ident
  pub title : String
  pub exception_type : String
  pub first_seen : ℕ
  pub last_seen : ℕ
  pub event_count : ℕ
  pub status : IssueStatus
  pub regression : Bool

abbrev pub is_resolved : IssueStatus → Bool
is_resolved opened = false
is_resolved resolved = true

-- A further event of an issue, as the trigger stores it.
unfoldable pub touch : ℕ → Issue → Issue
touch received i = record i {
  event_count = i.event_count + 1;
  first_seen = min i.first_seen received;
  last_seen = max i.last_seen received;
  status = opened;
  regression = if is_resolved i.status then true else i.regression;
}

abbrev pub is_issue : Ident → Issue → Bool
is_issue id i = i.id == id

abbrev pub has_fingerprint : Ident → Ident → Issue → Bool
has_fingerprint project hash i = i.project_id == project && i.fingerprint == hash

abbrev pub leads_nowhere : Option Ident → Bool
leads_nowhere none = true
leads_nowhere (some i) = false

-- A history that still leads a fingerprint to an issue.
abbrev pub remembers : Ident → Ident → ℕ → History → Bool
remembers project hash received h =
    h.project_id == project
    && h.fingerprint == hash
    && not (leads_nowhere h.issue_id)
    && leb received (h.last.seen + history_time)

abbrev pub issue_of : Option History → Option Ident
issue_of none = none
issue_of (some h) = h.issue_id

abbrev pub find_issue : Ident → Option Ident → List Issue → Option Issue
find_issue project none issues = none
find_issue project (some id) issues = find_first (λ i. i.id == id && i.project_id == project) issues

-- `tx.issue.upsert` on (projectId, fingerprint): the issue, and the table.
unfoldable pub upsert_issue : Issue → Option Issue → List Issue → Issue × List Issue
unfolding touch
upsert_issue new none issues = (new, issues ++ (new ∷ []))
upsert_issue new (some i) issues = (
  touch new.first_seen i,
  update (has_fingerprint new.project_id new.fingerprint) (touch new.first_seen) issues,
)

-- The issue that the event joins: the canonical one of its history, or the one of its fingerprint.
unfoldable pub place : Issue → Option Issue → List Issue → Issue × List Issue
unfolding upsert_issue
place new (some c) issues =
    (touch new.first_seen c, update (is_issue c.id) (touch new.first_seen) issues)
place new none issues =
    upsert_issue new (find_first (has_fingerprint new.project_id new.fingerprint) issues) issues
