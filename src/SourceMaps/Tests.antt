-- ===== src/SourceMaps/Tests.antt =====
-- A run of an upload, with texts hashed to their length and bytes to their sum.
use get_exception.Base.{
  Ident, nat_eq, ℕ, ◌+◌, ◌*◌, ◌≡◌, refl, Bool, true, false, Option, none, some, List, [], ◌∷◌, All,
  codes, arith, inl, length,
}
use get_exception.Base.Dict.{get, set}
use get_exception.Ingest.Http.{Text}
use get_exception.SourceMaps.Tables.{
  Artifact, Flight, Upload, receiving, pending, validating, State, awaited, available,
  bytes_reserved, bytes_of_project, bytes_in_all,
}
use get_exception.SourceMaps.Scope.{token}
use get_exception.SourceMaps.Begin.{begin_upload}
use get_exception.SourceMaps.Reopen.{UploadInput, ArtifactInput, require_disk_reserve}
use get_exception.SourceMaps.Write.{receive, store_artifact, finish_upload}
use get_exception.SourceMaps.Validate.{claim_upload, finish_validation}
use get_exception.SourceMaps.Validate.Fence.{finish_validation_fenced}
use get_exception.SourceMaps.Invariant.{IsPublished}
use get_exception.SourceMaps.Invariant.Create.{AreFresh}
use get_exception.SourceMaps.Reach.{
  by_begin, by_receive, by_store, by_finish, Reach, start, next, nothing, stored-hash,
  reach-IsPublished,
}
use get_exception.Web.AuthError.{ok, err, auth_error}

abbrev sum : List ℕ → Ident
sum [] = 0
sum (b ∷ bytes) = b + sum bytes

abbrev never : Text → Text → Bool
never s t = false

abbrev size_of : Text → List ArtifactInput → Ident
size_of t inputs = length inputs

abbrev release_name : Text
release_name = codes "web@0"

abbrev input : UploadInput
input = record {
  release = release_name;
  artifacts = record { path = codes "a.js"; debug_id = 5; sha256 = 246; size = 2 } ∷ [];
}

abbrev random : ℕ → Ident × Ident
random k = (100 + k, 200 + k)

abbrev file : Artifact
file = record {
  id = 100;
  project_id = 7;
  upload_id = 9;
  release = release_name;
  path = codes "a.js";
  debug_id = 5;
  sha256 = 246;
  size = 2;
  uploaded_at = none;
  storage_id = 200;
}

abbrev begun : State
begun = record {
  uploads =
      record {
        id = 9;
        project_id = 7;
        release = release_name;
        manifest_hash = 1;
        status = receiving;
        attempts = 0;
        lease_token = none;
        lease_until = none;
        is_invalid = false;
        created_at = 1000;
      }
      ∷ [];
  artifacts = file ∷ [];
  releases =
      record {
        project_id = 7;
        name = release_name;
        maps_state = awaited;
        maps_version = 0;
        last_activity_at = 1000;
      }
      ∷ [];
  files = [];
  flights = [];
}

abbrev flight : Flight
flight = record { id = 100; project_id = 7; upload_id = 9; bytes = 123 ∷ 123 ∷ [] }

abbrev received : State
received = record begun { flights = flight ∷ [] }

abbrev sent : State
sent = record received {
  artifacts = record file { uploaded_at = some 1100 } ∷ [];
  files = (200, 123 ∷ 123 ∷ []) ∷ [];
}

abbrev free : Option ℕ
free = some (8192 * 1048576)

fresh_ids : AreFresh nothing 9 random
unfolding get
fresh_ids = record {
  distinct_ids = ((λ i j e. omega arith), (λ i j e. omega arith));
  new_rows = λ j lt. tt;
  unused = ((λ j. tt), (λ j. refl));
  new_upload = tt;
}

begin_run :
    begin_upload never size_of (ok token) (ok tt) true 7 input 9 random free 1000 nothing
    ≡ ok (
      begun,
      record {
        upload_id = 9;
        status = receiving;
        listed = record { id = 100; path = codes "a.js"; uploaded = false } ∷ [];
      },
    )
unfolding begin_upload require_disk_reserve bytes_of_project bytes_in_all bytes_reserved
begin_run = refl

receive_run : receive sum (ok token) 7 9 100 (ok (123 ∷ 123 ∷ [])) (ok token) begun ≡ ok received
unfolding receive
receive_run = refl

store_run : store_artifact flight free 1100 received ≡ ok sent
unfolding store_artifact require_disk_reserve bytes_reserved set
store_run = refl

reached : Reach never size_of sum sent
reached =
    next
      (next
        (next start (
          by_begin (ok token) (ok tt) true 7 input 9 random free 1000 nothing begun _ fresh_ids
            begin_run))
        (by_receive (ok token) 7 9 100 (ok (123 ∷ 123 ∷ [])) (ok token) begun received receive_run))
      (by_store flight free 1100 received sent (inl refl) store_run)

stored-hash_example : sum (123 ∷ 123 ∷ []) ≡ 246
unfolding get
stored-hash_example =
    stored-hash never size_of sum sent (record file { uploaded_at = some 1100 }) (123 ∷ 123 ∷ [])
      reached (inl refl) refl

abbrev published : State
published = record sent {
  uploads =
      record {
        id = 9;
        project_id = 7;
        release = release_name;
        manifest_hash = 1;
        status = pending;
        attempts = 0;
        lease_token = none;
        lease_until = none;
        is_invalid = false;
        created_at = 1000;
      }
      ∷ [];
}

finish_run : finish_upload (ok token) 7 9 sent ≡ ok (published, pending)
unfolding finish_upload
finish_run = refl

too_early : finish_upload (ok token) 7 9 begun ≡ err (auth_error 409 (some "source_map_incomplete"))
unfolding finish_upload
too_early = refl

reach-IsPublished_example : All (IsPublished published.artifacts) published.uploads
reach-IsPublished_example =
    reach-IsPublished never size_of sum published
      (next reached (by_finish (ok token) 7 9 sent published pending finish_run))

-- The worker claims the row, and ends with the release's maps available.
validated :
    (finish_validation true
      (record {
        id = 9;
        project_id = 7;
        release = release_name;
        manifest_hash = 1;
        status = validating;
        attempts = 1;
        lease_token = some 77;
        lease_until = some 62000;
        is_invalid = false;
        created_at = 1000;
      })
      (claim_upload (λ p. true) (λ u. false) 77 2000 published).0).releases
    ≡ (record {
      project_id = 7;
      name = release_name;
      maps_state = available;
      maps_version = 1;
      last_activity_at = 1000;
    }
        ∷ [])
unfolding finish_validation claim_upload
validated = refl

abbrev claimed_row : Ident → Upload
claimed_row held = record {
  id = 9;
  project_id = 7;
  release = release_name;
  manifest_hash = 1;
  status = validating;
  attempts = 1;
  lease_token = some held;
  lease_until = some 62000;
  is_invalid = false;
  created_at = 1000;
}

taken_over : (claim_upload (λ p. true) (λ u. false) 77 2000 published).1 ≡ some (claimed_row 77)
unfolding claim_upload
taken_over = refl

finish_validation_fenced_example :
    finish_validation true
      (claimed_row 76)
      (claim_upload (λ p. true) (λ u. false) 77 2000 published).0
    ≡ (claim_upload (λ p. true) (λ u. false) 77 2000 published).0
finish_validation_fenced_example =
    finish_validation_fenced (λ p. true) (λ u. false) 76 77 2000 true (claimed_row 76)
      (claimed_row 77) published refl (omega arith) taken_over refl
