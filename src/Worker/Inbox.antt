-- ===== src/Worker/Inbox.antt =====
-- apps/worker/src/events.ts: the queue table event_inbox. Rows are claimed under a lease of one
-- minute, given back after a failure, and buried after five attempts. Times are milliseconds.
-- `Payload` is the JSON of an event, and `none` the empty object that replaces it.
pub mod Invariant
pub mod Order
pub mod Claim
pub mod Fence
pub mod Tests
use get_exception.Base.{
  Ident, ℕ, ◌+◌, ◌*◌, ◌^◌, min, Bool, true, false, not, ◌&&◌, ◌||◌, Option, none, some, List, [],
  ◌∷◌, ◌++◌, filter, any, ltb, leb, ◌==◌, if◌then◌else◌,
}
use get_exception.Base.Table.{update_many, update, first_by}

pub data Status : Type 0 where
  pending processing done dead discarded : Status

pub data Fault : Type 0 where
  lease_exhausted attempts_exhausted processing_failed : Fault

pub record Row (Payload : Type 0) : Type 0 where
  pub id : Ident
  pub project_id : Option Ident
  pub event_id : Ident
  pub payload : Option Payload
  pub received_at : ℕ
  pub status : Status
  pub attempts : ℕ
  pub next_attempt_at : ℕ
  pub lease_token : Option Ident
  pub lease_until : Option ℕ
  pub last_error : Option Fault

abbrev pub max_attempts : ℕ
max_attempts = 5

abbrev pub lease_time : ℕ
lease_time = 60000

abbrev pub is_pending : Status → Bool
is_pending pending = true
is_pending _ = false

abbrev pub is_processing : Status → Bool
is_processing pending = false
is_processing processing = true
is_processing _ = false

-- `column < now` on a nullable column: false on NULL.
abbrev pub is_before : Option ℕ → ℕ → Bool
is_before none now = false
is_before (some t) now = ltb t now

-- `column = value` on nullable columns: IS NULL for null, as the client library writes it.
abbrev pub same_token : Option Ident → Option Ident → Bool
same_token none none = true
same_token none (some t) = false
same_token (some s) none = false
same_token (some s) (some t) = s == t

-- The delay before the next attempt.
pub backoff : ℕ → ℕ
backoff attempts = min 300000 (1000 * 2 ^ attempts)

-- `"projectId" IS NOT NULL AND EXISTS (…)`: `live` says which projects are there and not deleted.
abbrev pub is_live : (Ident → Bool) → Option Ident → Bool
is_live live none = false
is_live live (some p) = live p

-- `"leaseToken" = …` in SQL: never true of NULL.
abbrev pub equal_token : Option Ident → Option Ident → Bool
equal_token none t = false
equal_token (some s) none = false
equal_token (some s) (some t) = s == t

module _ {Payload : Type 0} where
  -- A worker that died at its last attempt.
  unfoldable pub is_exhausted : ℕ → Row Payload → Bool
  is_exhausted now r =
      is_processing r.status && is_before r.lease_until now && leb max_attempts r.attempts

  pub bury : Row Payload → Row Payload
  bury r = record r {
    status = dead;
    lease_until = none;
    lease_token = none;
    last_error = some lease_exhausted;
  }

  pub is_claimable : (Ident → Bool) → ℕ → Row Payload → Bool
  is_claimable live now r =
      is_live live r.project_id
      && ltb r.attempts max_attempts
      && ((is_pending r.status && leb r.next_attempt_at now)
          || (is_processing r.status && is_before r.lease_until now))

  -- ORDER BY "receivedAt", id
  abbrev pub precedes : Row Payload → Row Payload → Bool
  precedes r s =
      ltb r.received_at s.received_at || (r.received_at == s.received_at && ltb r.id s.id)

  unfoldable pub lease : ℕ → Ident → Row Payload → Row Payload
  lease now token r = record r {
    status = processing;
    attempts = r.attempts + 1;
    lease_token = some token;
    lease_until = some (now + lease_time);
  }

  -- The rows of which SKIP LOCKED leaves the choice: `locked` are those that other transactions hold.
  pub open_rows : (Ident → Bool) → (Ident → Bool) → ℕ → List (Row Payload) → List (Row Payload)
  unfolding is_claimable
  open_rows live locked now rows = filter (λ r. is_claimable live now r && not (locked r.id)) rows

  -- The row that was selected is leased, and its new state is the job.
  pub grant :
      ℕ
      → Ident
      → List (Row Payload)
      → Option (Row Payload)
      → List (Row Payload) × Option (Row Payload)
  unfolding lease
  grant now token rows none = (rows, none)
  grant now token rows (some r) =
      (update (λ s. s.id == r.id) (lease now token) rows, some (lease now token r))

  pub bury_exhausted : ℕ → List (Row Payload) → List (Row Payload)
  unfolding is_exhausted bury
  bury_exhausted now inbox = update_many (is_exhausted now) bury inbox

  -- The inbox afterwards, and the job, if there is one. `token` is the random lease token.
  unfoldable pub claim :
      (Ident → Bool)
      → (Ident → Bool)
      → ℕ
      → Ident
      → List (Row Payload)
      → List (Row Payload) × Option (Row Payload)
  unfolding bury_exhausted open_rows grant
  claim live locked now token inbox =
      let rows = bury_exhausted now inbox in
      grant now token rows (first_by precedes (open_rows live locked now rows))

  -- The rows that a job may still write: the `where` of the heartbeat and of `retryJob`.
  abbrev pub is_owned : Row Payload → Row Payload → Bool
  is_owned job r =
      r.id == job.id && same_token r.lease_token job.lease_token && is_processing r.status

  pub heartbeat : Row Payload → ℕ → List (Row Payload) → List (Row Payload)
  heartbeat job now =
      update_many (is_owned job) (λ r. record r { lease_until = some (now + lease_time) })

  unfoldable pub retry_job : Row Payload → ℕ → List (Row Payload) → List (Row Payload) × Bool
  retry_job job now inbox =
      let is_dead = leb max_attempts job.attempts in
      (
        update_many (is_owned job)
            (λ r. record r {
              status = if is_dead then dead else pending;
              next_attempt_at = now + backoff job.attempts;
              lease_token = none;
              lease_until = none;
              last_error = some (if is_dead then attempts_exhausted else processing_failed);
            })
            inbox,
        is_dead,
      )

  -- The fence of `processJob`: the row is still processing under the job's token.
  abbrev pub holds : Row Payload → Row Payload → Bool
  holds job r =
      r.id == job.id && equal_token r.lease_token job.lease_token && is_processing r.status

  unfoldable pub is_held : Row Payload → List (Row Payload) → Bool
  is_held job inbox = any (holds job) inbox

  -- The end of `processJob`: the payload goes, the receipt stays.
  unfoldable pub settle : Row Payload → List (Row Payload) → List (Row Payload)
  settle job =
      update (λ r. r.id == job.id)
        λ r. record r {
          status = done;
          payload = none;
          lease_token = none;
          lease_until = none;
          last_error = none;
        }

  -- `createMany` with `skipDuplicates`: one row for a project's event.
  abbrev pub is_duplicate : Row Payload → Row Payload → Bool
  is_duplicate new r = same_token r.project_id new.project_id && r.event_id == new.event_id

  abbrev pub new_row : Ident → Ident → Ident → Payload → ℕ → Row Payload
  new_row id project event payload now = record {
    id = id;
    project_id = some project;
    event_id = event;
    payload = some payload;
    received_at = now;
    status = pending;
    attempts = 0;
    next_attempt_at = now;
    lease_token = none;
    lease_until = none;
    last_error = none;
  }

  unfoldable pub accept : Row Payload → List (Row Payload) → List (Row Payload)
  accept new inbox = if any (is_duplicate new) inbox then inbox else inbox ++ (new ∷ [])
