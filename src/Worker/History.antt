-- ===== src/Worker/History.antt =====
-- apps/worker/src/issue-history.ts, `recordIssueObservation` and `transferIssueHistory`, with the trigger
-- `issue_history_chronology` that the database runs on its updates. A row holds the first and the
-- last sighting of a fingerprint in an environment. A difference of times is compared by adding
-- to the other side. The project's `issueHistoryStartedAt` is an argument.
pub mod Chronology
pub mod Transfer
pub mod Rows
pub mod Kept
pub mod Tests
use get_exception.Base.{
  ℕ, ◌+◌, ◌*◌, Bool, true, false, not, ◌&&◌, ◌||◌, Option, none, some, List, [], ◌∷◌, ◌++◌, any,
  filter, ltb, leb, ◌==◌, if◌then◌else◌, String,
}
use get_exception.Base.Table.{update, update_many, delete_many}
use get_exception.Base.{Ident}

pub data Environment : Type 0 where
  production staging development : Environment

abbrev pub same_environment : Environment → Environment → Bool
same_environment production production = true
same_environment staging staging = true
same_environment development development = true
same_environment _ _ = false

-- One end of a history: when, by which event, in which release.
pub record Sighting : Type 0 where
  pub seen : ℕ
  pub event_id : Ident
  pub release : Option String
  pub app_version : Option String

pub record History : Type 0 where
  pub project_id : Ident
  pub fingerprint : Ident
  pub environment : Environment
  pub issue_id : Option Ident
  pub canonical : Bool
  pub first : Sighting
  pub first_known : Bool
  pub last : Sighting

-- RETENTION_DAYS.issueHistory, in milliseconds
abbrev pub history_time : ℕ
history_time = 90 * 86400000

-- (OLD."firstSeen", OLD."firstEventId") <= (NEW."firstSeen", NEW."firstEventId")
abbrev pub not_after : Sighting → Sighting → Bool
not_after s t = ltb s.seen t.seen || (s.seen == t.seen && leb s.event_id t.event_id)

abbrev pub earlier : Sighting → Sighting → Sighting
earlier old new = if not_after old new then old else new

abbrev pub later : Sighting → Sighting → Sighting
later old new = if not_after new old then old else new

-- The trigger: what an update of `old` by `new` stores.
pub chronology : History → History → History
chronology old new = record new {
  first = earlier old.first new.first;
  first_known = if not_after old.first new.first then old.first_known else new.first_known;
  last = later old.last new.last;
}

abbrev pub has_key : Ident → Ident → Environment → History → Bool
has_key project hash environment h =
    h.project_id == project && h.fingerprint == hash && same_environment h.environment environment

-- `upsert` on (projectId, fingerprint, environment).
pub upsert : History → List History → List History
unfolding chronology
upsert new histories =
    let key = has_key new.project_id new.fingerprint new.environment in
    if any key histories
    then update key (λ old. chronology old new) histories
    else histories ++ (new ∷ [])

-- What an issue is to the histories.
pub record IssueKey : Type 0 where
  pub id : Ident
  pub project_id : Ident
  pub fingerprint : Ident
  pub first_seen : ℕ

-- One round of the loop: forget a history that has run out, then record the sighting.
pub observe : IssueKey → Environment → Sighting → Bool → Ident → List History → List History
unfolding upsert
observe issue environment s known hash histories =
    upsert
      (record {
        project_id = issue.project_id;
        fingerprint = hash;
        environment = environment;
        issue_id = some issue.id;
        canonical = hash == issue.fingerprint;
        first = s;
        first_known = known;
        last = s;
      })
      (delete_many
        (λ h.
          has_key issue.project_id hash environment h && ltb (h.last.seen + history_time) s.seen)
        histories)

-- `new Set([issue.fingerprint, observedFingerprint])`, in turn.
unfoldable pub record_observation :
    ℕ → IssueKey → Environment → Sighting → Option Bool → Ident → List History → List History
unfolding observe
record_observation started issue environment s known hash histories =
    let first_known : Bool = elim known [
      | none ↦ leb started issue.first_seen || leb (started + history_time) s.seen
      | some k ↦ k
    ] in
    let own = observe issue environment s first_known issue.fingerprint histories in
    if hash == issue.fingerprint then own else observe issue environment s first_known hash own

abbrev pub same_issue : Ident → Option Ident → Bool
same_issue id none = false
same_issue id (some i) = i == id

abbrev pub belongs : Ident → History → Bool
belongs id h = same_issue id h.issue_id

-- `data`, with the destination's fingerprint.
abbrev pub moved : IssueKey → History → History
moved destination h = record h {
  fingerprint = destination.fingerprint;
  issue_id = some destination.id;
  canonical = true;
}

-- One round of the loop of `transferIssueHistory`.
unfoldable pub move_one : IssueKey → History → List History → List History
unfolding chronology
move_one destination h histories =
    let key = has_key destination.project_id destination.fingerprint h.environment in
    if any key histories
    then update key (λ old. chronology old (moved destination h)) histories
    else histories ++ (moved destination h ∷ [])

pub move_all : IssueKey → List History → List History → List History
move_all destination [] histories = histories
move_all destination (h ∷ rows) histories =
    move_all destination rows (move_one destination h histories)

-- What is left of the previous issue's rows: aliases of the destination.
abbrev pub aliased : Ident → History → History
aliased destination h = record h { issue_id = some destination; canonical = false }

unfoldable pub transfer_issue_history : IssueKey → IssueKey → List History → List History
unfolding move_all chronology
transfer_issue_history previous destination histories =
    update_many (belongs previous.id) (λ old. chronology old (aliased destination.id old))
      (move_all destination (filter (λ h. belongs previous.id h && h.canonical) histories)
        histories)
