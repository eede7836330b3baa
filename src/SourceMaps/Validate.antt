-- ===== src/SourceMaps/Validate.antt =====
-- apps/worker/src/source-maps/uploads.ts, `validateOneUpload`, as its steps: the claim under a lease,
-- the renewals of the lease, the check of each file and the end. The files are checked by
-- parseStoredMap (apps/worker/src/source-maps/parse.ts), whose parser of a map is a parameter.
pub mod Fence
use get_exception.Base.{
  Ident, Eq, nat_eq, ℕ, ◌+◌, Bool, true, false, not, ◌&&◌, ◌||◌, ◌==◌, leb, ltb, ◌===◌, list_eq,
  Option, none, some, List, [], ◌∷◌, length, all, any, filter, if◌then◌else◌,
}
use get_exception.Base.Dict.{Dict, get}
use get_exception.Base.Table.{update_many, first_by}
use get_exception.Ingest.Http.{Text}
use get_exception.SourceMaps.Tables.{
  Artifact, Upload, UploadStatus, receiving, pending, validating, ready, failed, MapsState,
  available, broken, Release, State, is_set, file_bytes,
}
use get_exception.SourceMaps.Begin.{is_release}
use get_exception.SourceMaps.Reopen.{is_of}

abbrev pub lease_time : ℕ
lease_time = 60000

abbrev is_before : Option ℕ → ℕ → Bool
is_before none now = false
is_before (some t) now = ltb t now

abbrev is_due : ℕ → Upload → UploadStatus → Bool
is_due now u receiving = false
is_due now u pending = true
is_due now u validating = is_before u.lease_until now
is_due now u ready = false
is_due now u failed = false

-- A row that can be claimed: `live` says which projects are not deleted, and `locked` which rows
-- other transactions have locked.
abbrev pub is_claimable : (Ident → Bool) → (Ident → Bool) → ℕ → Upload → Bool
is_claimable live locked now u = live u.project_id && not (locked u.id) && is_due now u u.status

abbrev pub claimed : Ident → ℕ → Upload → Upload
claimed token now u = record u {
  status = validating;
  attempts = u.attempts + 1;
  lease_token = some token;
  lease_until = some (now + lease_time);
}

abbrev claim_row : Option Upload → Ident → ℕ → State → State × Option Upload
claim_row none token now s = (s, none)
claim_row (some u) token now s = (
  record s { uploads = update_many (λ v. v.id == u.id) (claimed token now) s.uploads },
  some (claimed token now u),
)

unfoldable pub claim_upload :
    (Ident → Bool) → (Ident → Bool) → Ident → ℕ → State → State × Option Upload
claim_upload live locked token now s =
    claim_row
      (first_by (λ u v. ltb u.created_at v.created_at)
        (filter (is_claimable live locked now) s.uploads))
      token now s

abbrev same_token : Option Ident → Option Ident → Bool
same_token none none = false
same_token none (some t) = false
same_token (some s) none = false
same_token (some s) (some t) = s == t

abbrev is_validating : UploadStatus → Bool
is_validating receiving = false
is_validating pending = false
is_validating validating = true
is_validating ready = false
is_validating failed = false

-- The rows that the worker still holds.
abbrev pub is_owned : Upload → Upload → Bool
is_owned job u =
    u.id == job.id && same_token job.lease_token u.lease_token && is_validating u.status

-- The heartbeat, and the renewal before each file.
unfoldable pub renew : Upload → ℕ → State → State
renew job now s = record s {
  uploads =
      update_many (is_owned job) (λ u. record u { lease_until = some (now + lease_time) })
        s.uploads;
}

module _ (hash : List ℕ → Ident) (parses : List ℕ → Ident → Text → Bool) where
  abbrev sound : Artifact → Option (List ℕ) → Bool
  sound a none = false
  sound a (some bytes) =
      leb (length bytes) file_bytes
      && length bytes == a.size
      && hash bytes == a.sha256
      && parses bytes a.debug_id a.path

  -- `parseStoredMap` does not throw.
  abbrev pub parse_stored : Dict Ident (List ℕ) → Artifact → Bool
  parse_stored files a = sound a (get files a.storage_id)

  -- The check of one artifact of the claimed row.
  abbrev pub is_valid_file : Dict Ident (List ℕ) → Artifact → Bool
  is_valid_file files a = is_set a.uploaded_at && parse_stored files a

  -- The outcome, if the lease holds throughout: `artifacts` are those that the claim has read, and
  -- `files` what the disk has when each is checked.
  unfoldable pub outcome : Upload → List (Artifact × Dict Ident (List ℕ)) → Bool
  outcome job checks = leb job.attempts 3 && all (λ c. is_valid_file c.1 c.0) checks

abbrev judge : Bool → UploadStatus
judge true = ready
judge false = failed

abbrev pub settle_upload : Bool → Upload → Upload
settle_upload valid u = record u {
  status = judge valid;
  is_invalid = not valid;
  lease_token = none;
  lease_until = none;
}

-- Releases after the outcome: a failure does not touch one that has maps.
abbrev pub settle_release : Bool → Upload → Release → Release
settle_release true job r = record r { maps_state = available; maps_version = r.maps_version + 1 }
settle_release false job r = if r.maps_version == 0 then record r { maps_state = broken } else r

-- Without a release the update of a sound upload throws, and its transaction is undone.
abbrev pub settles : Bool → Upload → State → Bool
settles valid job s =
    any (is_owned job) s.uploads
    && (not valid || any (is_release job.project_id job.release) s.releases)

unfoldable pub finish_validation : Bool → Upload → State → State
finish_validation valid job s =
    if settles valid job s
    then record s {
      uploads = update_many (λ u. u.id == job.id) (settle_upload valid) s.uploads;
      releases =
          update_many (is_release job.project_id job.release) (settle_release valid job) s.releases;
    }
    else s
