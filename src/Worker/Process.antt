-- ===== src/Worker/Process.antt =====
-- apps/worker/src/events.ts, `processJob` and `runOne`, over the tables that its transaction writes.
-- Random identifiers are arguments. What is only copied into error_event is held in `Details`.
pub mod Once
pub mod Tests
use get_exception.Base.{
  ℕ, ◌+◌, min, max, Bool, true, false, not, ◌&&◌, ◌||◌, Option, none, some, List, [], ◌∷◌, ◌++◌,
  any, ltb, leb, ◌==◌, ◌===◌, string_eq, if◌then◌else◌, String,
}
use get_exception.Base.Table.{update, update_many, find_first}
use get_exception.Base.{Ident}
use get_exception.Worker.Inbox.{Row, claim, is_held, settle, retry_job}
use get_exception.Worker.Issue.{
  Issue, opened, touch, is_issue, has_fingerprint, remembers, issue_of, find_issue, place,
}
use get_exception.Worker.Release.{Release, is_release, upsert_release, name_version, truthy}
use get_exception.Worker.History.{
  Environment, same_environment, Sighting, History, IssueKey, history_time, record_observation,
}

-- The fields of `SafeEvent` that the worker reads.
pub record Event (Details : Type 0) : Type 0 where
  pub message : String
  pub exception_type : String
  pub environment : Environment
  pub release : Option String
  pub app_version : Option String
  pub details : Details

pub record ErrorEvent (Details : Type 0) : Type 0 where
  pub project_id : Ident
  pub event_id : Ident
  pub issue_id : Ident
  pub received_at : ℕ
  pub event : Event Details

pub record Store (Payload Details : Type 0) : Type 0 where
  pub inbox : List (Row Payload)
  pub events : List (ErrorEvent Details)
  pub issues : List Issue
  pub histories : List History
  pub releases : List Release
  pub deployments : List (Ident × Environment)

-- The identifiers that the transaction draws.
pub record Fresh : Type 0 where
  pub issue : Ident
  pub release : Ident

abbrev pub has_event : {Details : Type 0} → Ident → Ident → ErrorEvent Details → Bool
has_event project event e = e.project_id == project && e.event_id == event

-- The `issueHistoryStartedAt` of a row's project.
abbrev started_for : (Ident → ℕ) → Option Ident → ℕ
started_for started none = 0
started_for started (some project) = started project

module _ {Payload Details : Type 0} where
  -- The release part of the transaction.
  pub record_release :
      Option String
      → Ident
      → Ident
      → ℕ
      → Event Details
      → Store Payload Details
      → Store Payload Details
  unfolding upsert_release
  record_release none project fresh received event s = s
  record_release (some name) project fresh received event s =
      let new : Release = record {
        id = fresh;
        project_id = project;
        name = name;
        app_version = event.app_version;
        last_activity_at = received;
      } in
      let (r, releases) =
        upsert_release new (find_first (is_release project name) s.releases) s.releases in
      record s {
        releases = name_version (truthy event.app_version) r.id releases;
        deployments =
            if any (λ d. d.0 == r.id && same_environment d.1 event.environment) s.deployments
            then s.deployments
            else s.deployments ++ ((r.id, event.environment) ∷ []);
      }

  -- `if (!existing) { … }`
  pub record_event :
      ℕ
      → Fresh
      → Ident
      → Row Payload
      → Event Details
      → Ident
      → Store Payload Details
      → Store Payload Details
  unfolding place record_observation record_release
  record_event started fresh project job event hash s =
      let received = job.received_at in
      let remembered = find_first (remembers project hash received) s.histories in
      let canonical = find_issue project (issue_of remembered) s.issues in
      let new : Issue = record {
        id = fresh.issue;
        project_id = project;
        fingerprint = hash;
        title = event.message;
        exception_type = event.exception_type;
        first_seen = received;
        last_seen = received;
        event_count = 1;
        status = opened;
        regression = false;
      } in
      let (issue, issues) = place new canonical s.issues in
      let sighting : Sighting = record {
        seen = received;
        event_id = job.event_id;
        release = event.release;
        app_version = event.app_version;
      } in
      let key : IssueKey = record {
        id = issue.id;
        project_id = issue.project_id;
        fingerprint = issue.fingerprint;
        first_seen = issue.first_seen;
      } in
      record_release (truthy event.release) project fresh.release received event (record s {
        events =
            s.events
            ++ (record {
              project_id = project;
              event_id = job.event_id;
              issue_id = issue.id;
              received_at = received;
              event = event;
            }
                ∷ []);
        issues = issues;
        histories = record_observation started key event.environment sighting none hash s.histories;
      })

  -- The transaction of `processJob`.
  pub commit :
      ℕ
      → Fresh
      → Ident
      → Row Payload
      → Event Details
      → Ident
      → Store Payload Details
      → Store Payload Details
  unfolding record_event settle
  commit started fresh project job event hash s =
      if is_held job s.inbox
      then (let recorded =
            if any (has_event project job.event_id) s.events
            then s
            else record_event started fresh project job event hash s in
          record recorded { inbox = settle job recorded.inbox })
      else s

  -- `processJob`: `none` where it throws, before its transaction. `resolve` is the work on the source
  -- maps, with the fingerprint of what it makes.
  pub process_job :
      ℕ
      → Fresh
      → (Payload → Option (Event Details))
      → (Event Details → Option Ident)
      → Row Payload
      → Store Payload Details
      → Option (Store Payload Details)
  unfolding commit
  process_job started fresh parse resolve job s = elim job.project_id [
    | none ↦ none
    | some project ↦ elim job.payload [
      | none ↦ none
      | some payload ↦ elim (parse payload) [
        | none ↦ none
        | some event ↦ elim (resolve event) [
          | none ↦ none
          | some hash ↦ some (commit started fresh project job event hash s)
        ]
      ]
    ]
  ]

  -- `runOne`: a job that throws is given back.
  pub finish_one :
      Row Payload
      → ℕ
      → Store Payload Details
      → Option (Store Payload Details)
      → Store Payload Details
  unfolding retry_job
  finish_one job now s none = record s { inbox = (retry_job job now s.inbox).0 }
  finish_one job now s (some after) = after

  pub run_one :
      (Ident → Bool)
      → (Ident → Bool)
      → ℕ
      → Ident
      → (Ident → ℕ)
      → Fresh
      → (Payload → Option (Event Details))
      → (Event Details → Option Ident)
      → Store Payload Details
      → Store Payload Details × Bool
  unfolding claim process_job finish_one
  run_one live locked now token started fresh parse resolve s =
      let (inbox, job) = claim live locked now token s.inbox in
      let claimed = record s { inbox = inbox } in
      elim job [
        | none ↦ (claimed, false)
        | some j ↦ (
          finish_one j now claimed
              (process_job (started_for started j.project_id) fresh parse resolve j claimed),
          true,
        )
      ]
