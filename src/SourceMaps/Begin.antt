-- ===== src/SourceMaps/Begin.antt =====
-- apps/web/src/server/source-maps/upload.ts, `beginUpload`. Its transaction is one step. The order
-- of localeCompare, the hash of a manifest, the random identifiers, the free bytes of the disk
-- (`none` if they cannot be read) and the answers of authorizeUpload and of the rate limit are
-- arguments; the input has passed its schema.
use get_exception.Base.{
  Ident, nat_eq, ℕ, ◌+◌, suc, Bool, false, not, ◌&&◌, ◌||◌, ◌==◌, leb, ◌===◌, list_eq, Option, none,
  some, List, [], ◌∷◌, ◌++◌, length, any, filter, map, if◌then◌else◌,
}
use get_exception.Base.Dict.{Dict}
use get_exception.Base.Table.{update_many, find_first}
use get_exception.Ingest.Http.{Text}
use get_exception.Web.AuthError.{Result, ok, auth_error, require, ◌>>=◌, ◌>>◌}
use get_exception.SourceMaps.Tables.{
  Artifact, Upload, receiving, awaited, Release, State, bytes_of_project, bytes_in_all,
  bytes_reserved, project_bytes, installation_bytes, is_set, exists,
}
use get_exception.SourceMaps.Scope.{UploadPrincipal, assert_upload_scope}
use get_exception.SourceMaps.Reopen.{
  ArtifactInput, UploadInput, Listed, Begun, sort, require_disk_reserve, reopen,
}

abbrev pub is_file : ArtifactInput → Artifact → Bool
is_file i a = a.debug_id == i.debug_id && a.path === i.path

-- distinct: the first row of each debug ID, path and hash.
abbrev same_content : Artifact → Artifact → Bool
same_content a b = b.debug_id == a.debug_id && b.path === a.path && b.sha256 == a.sha256

abbrev keep_first : Artifact → List Artifact → List Artifact
keep_first a rows = a ∷ filter (λ b. not (same_content a b)) rows

unfoldable pub distinct : List Artifact → List Artifact
distinct [] = []
distinct (a ∷ rows) = keep_first a (distinct rows)

unfoldable pub existing_of : Ident → List ArtifactInput → List Artifact → List Artifact
unfolding distinct
existing_of project inputs rows =
    distinct (filter (λ a. a.project_id == project && any (λ i. is_file i a) inputs) rows)

-- What is taken over from an existing row: its file, and when it was sent.
abbrev storage_or : Ident → Option Artifact → Ident
storage_or fresh none = fresh
storage_or fresh (some a) = a.storage_id

abbrev sent_at : Dict Ident (List ℕ) → Option Artifact → Option ℕ
sent_at files none = none
sent_at files (some a) = if exists files a.storage_id then a.uploaded_at else none

module _ (project upload : Ident) (release : Text) (fresh : ℕ → Ident × Ident)
    (files : Dict Ident (List ℕ)) (existing : List Artifact) where
  abbrev pub prepare : ℕ → ArtifactInput → Artifact
  prepare k i =
      let prior = find_first (is_file i) existing in
      record {
        id = (fresh k).0;
        project_id = project;
        upload_id = upload;
        release = release;
        path = i.path;
        debug_id = i.debug_id;
        sha256 = i.sha256;
        size = i.size;
        uploaded_at = sent_at files prior;
        storage_id = storage_or (fresh k).1 prior;
      }

  -- A file of the same debug ID and path has other content.
  abbrev pub conflicts : ArtifactInput → Bool
  conflicts i =
      any
        (λ a.
          is_file i a
          && (not (a.sha256 == i.sha256) || not (a.size == i.size) || not (a.path === i.path)))
        existing

  unfoldable pub prepare_all : ℕ → List ArtifactInput → Result (List Artifact)
  prepare_all k [] = ok []
  prepare_all k (i ∷ inputs) = do
    require (not (conflicts i)) (auth_error 409 (some "source_map_conflict"))
    rows ← prepare_all (suc k) inputs
    ok (prepare k i ∷ rows)

-- The bytes that need new room.
abbrev pub new_bytes : List Artifact → List Artifact → ℕ
new_bytes existing [] = 0
new_bytes existing (a ∷ rest) =
    (if any (λ e. e.storage_id == a.storage_id) existing then 0 else a.size)
    + new_bytes existing rest

abbrev pub is_release : Ident → Text → Release → Bool
is_release project name r = r.project_id == project && r.name === name

-- `release.upsert`, and then the update of a release that has never had maps.
unfoldable pub await_maps : Ident → Text → ℕ → List Release → List Release
await_maps project name now releases =
    update_many (λ r. is_release project name r && r.maps_version == 0)
      (λ r. record r { maps_state = awaited })
      (if any (is_release project name) releases
        then update_many (is_release project name) (λ r. record r { last_activity_at = now })
            releases
        else releases
          ++ (record {
            project_id = project;
            name = name;
            maps_state = awaited;
            maps_version = 0;
            last_activity_at = now;
          }
              ∷ []))

abbrev pub list_created : List Artifact → List Listed
list_created [] = []
list_created (a ∷ rest) =
    record { id = a.id; path = a.path; uploaded = is_set a.uploaded_at } ∷ list_created rest

-- A new upload within the limits.
unfoldable pub create :
    Ident
    → Ident
    → Ident
    → UploadInput
    → (ℕ → Ident × Ident)
    → Option ℕ
    → ℕ
    → State
    → Result (State × Begun)
unfolding existing_of prepare_all require_disk_reserve await_maps
create project manifest upload input fresh free now s = do
  let existing = existing_of project input.artifacts s.artifacts
  prepared ← prepare_all project upload input.release fresh s.files existing 0 input.artifacts
  let bytes = new_bytes existing prepared
  require
      (leb (bytes_of_project project s.artifacts + bytes) project_bytes
        && leb (bytes_in_all s.artifacts + bytes) installation_bytes
        && leb (length s.artifacts + length input.artifacts) 100000)
      (auth_error 413 (some "source_map_quota"))
  require_disk_reserve free (bytes_reserved s.artifacts + bytes)
  let created : Upload = record {
    id = upload;
    project_id = project;
    release = input.release;
    manifest_hash = manifest;
    status = receiving;
    attempts = 0;
    lease_token = none;
    lease_until = none;
    is_invalid = false;
    created_at = now;
  }
  ok (
    record s {
      uploads = s.uploads ++ (created ∷ []);
      artifacts = s.artifacts ++ prepared;
      releases = await_maps project input.release now s.releases;
    },
    record { upload_id = upload; status = receiving; listed = list_created prepared },
  )

abbrev pub is_manifest : Ident → Ident → Upload → Bool
is_manifest project manifest u = u.project_id == project && u.manifest_hash == manifest

abbrev pub reopen_or_create :
    Option Upload
    → Ident
    → Ident
    → Ident
    → UploadInput
    → (ℕ → Ident × Ident)
    → Option ℕ
    → ℕ
    → State
    → Result (State × Begun)
reopen_or_create none project manifest upload input fresh free now s =
    create project manifest upload input fresh free now s
reopen_or_create (some prior) project manifest upload input fresh free now s = reopen prior s

module _ (before : Text → Text → Bool) (manifest_of : Text → List ArtifactInput → Ident) where
  -- `live` says if the project is there, enabled and not deleted.
  unfoldable pub begin_upload :
      Result UploadPrincipal
      → Result (Unit {0})
      → Bool
      → Ident
      → UploadInput
      → Ident
      → (ℕ → Ident × Ident)
      → Option ℕ
      → ℕ
      → State
      → Result (State × Begun)
  unfolding sort reopen create
  begin_upload authorized limited live project input upload fresh free now s = do
    principal ← authorized
    assert_upload_scope principal input.release (map (λ i. i.path) input.artifacts)
    let sorted = record input { artifacts = sort before input.artifacts }
    let manifest = manifest_of input.release sorted.artifacts
    limited
    require live (auth_error 404 none)
    reopen_or_create (find_first (is_manifest project manifest) s.uploads) project manifest upload
        sorted fresh free now s
