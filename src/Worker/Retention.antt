-- ===== src/Worker/Retention.antt =====
-- apps/worker/src/release-retention.ts: the releases that nothing refers to any more. The statement
-- selects and deletes in one snapshot. Of the other tables a row has what the statement reads.
pub mod Kept
pub mod Progress
pub mod Tests
use get_exception.Base.{
  ℕ, ◌+◌, ◌*◌, Bool, not, ◌&&◌, ◌||◌, ltb, Option, none, some, List, [], ◌∷◌, ◌==◌, ◌===◌,
  string_eq, length, take, filter, any, if◌then◌else◌, String, Ident, true, false,
}
use get_exception.Worker.Release.{Release}

abbrev pub release_days : ℕ
release_days = 90

-- The batch of a run.
abbrev pub batch : ℕ
batch = 100

abbrev pub names : String → Option String → Bool
names name none = false
names name (some t) = t === name

pub record EventRow : Type 0 where
  pub project_id : Ident
  pub release : Option String

pub record HistoryRow : Type 0 where
  pub project_id : Ident
  pub first_release : Option String
  pub last_release : Option String

pub record UploadRow : Type 0 where
  pub project_id : Ident
  pub release : String

-- `is_active`: the status is pending or processing.
pub record InboxRow : Type 0 where
  pub project_id : Ident
  pub is_active : Bool
  pub payload_release : Option String

pub record Tables : Type 0 where
  pub releases : List Release
  pub events : List EventRow
  pub histories : List HistoryRow
  pub uploads : List UploadRow
  pub inbox : List InboxRow

unfoldable pub is_referenced : Tables → Release → Bool
is_referenced s r =
    any (λ (e : EventRow). e.project_id == r.project_id && names r.name e.release) s.events
    || any
        (λ (h : HistoryRow).
          h.project_id == r.project_id
          && (names r.name h.first_release || names r.name h.last_release))
        s.histories
    || any (λ (u : UploadRow). u.project_id == r.project_id && (u.release === r.name)) s.uploads
    || any
        (λ (q : InboxRow).
          q.project_id == r.project_id && q.is_active && names r.name q.payload_release)
        s.inbox

-- Times are in milliseconds.
unfoldable pub is_removable : ℕ → Tables → Release → Bool
unfolding is_referenced
is_removable now s r =
    ltb (r.last_activity_at + release_days * 86400000) now && not (is_referenced s r)

abbrev pub comes_before : Release → Release → Bool
comes_before r t =
    ltb r.last_activity_at t.last_activity_at
    || (r.last_activity_at == t.last_activity_at && ltb r.id t.id)

unfoldable pub insert_release : Release → List Release → List Release
insert_release r [] = r ∷ []
insert_release r (t ∷ rs) = if comes_before r t then r ∷ t ∷ rs else t ∷ insert_release r rs

-- ORDER BY "lastActivityAt", id
unfoldable pub in_order : List Release → List Release
unfolding insert_release
in_order [] = []
in_order (r ∷ rs) = insert_release r (in_order rs)

unfoldable pub candidates : ℕ → Tables → List Release
unfolding is_removable in_order
candidates now s = take batch (in_order (filter (is_removable now s) s.releases))

abbrev pub is_candidate : List Release → Release → Bool
is_candidate cs r = any (λ (c : Release). c.id == r.id) cs

abbrev pub is_gone : ℕ → Tables → Release → Bool
is_gone now s r = is_candidate (candidates now s) r && is_removable now s r

-- The tables, and the number of releases that are gone.
unfoldable pub retain_releases : ℕ → Tables → Tables × ℕ
unfolding candidates is_removable
retain_releases now s = (
  record s { releases = filter (λ r. not (is_gone now s r)) s.releases },
  length (filter (is_gone now s) s.releases),
)
