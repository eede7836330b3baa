-- ===== src/SourceMaps/Tables.antt =====
-- The tables source_map_upload, source_artifact and release (packages/db/prisma/schema.prisma), as
-- far as source maps go, with the files of SourceMapStore (packages/source-maps/src/index.ts) and
-- the requests of apps/web/src/server/source-maps/upload.ts that have read an artifact's body.
-- Hashes, tokens and identifiers are numbers; names and paths are texts.
use get_exception.Base.{
  Ident, nat_eq, ℕ, ◌+◌, ◌*◌, max, Bool, true, false, not, ◌&&◌, ◌||◌, ◌==◌, leb, list_eq, Option,
  none, some, List, [], ◌∷◌, length, if◌then◌else◌,
}
use get_exception.Base.Dict.{Dict, get, set}
use get_exception.Ingest.Http.{Text}

pub record Artifact : Type 0 where
  pub id : Ident
  pub project_id : Ident
  pub upload_id : Ident
  pub release : Text
  pub path : Text
  pub debug_id : Ident
  pub sha256 : Ident
  pub size : ℕ
  pub uploaded_at : Option ℕ
  pub storage_id : Ident

pub data UploadStatus : Type 0 where
  receiving pending validating ready failed : UploadStatus

pub record Upload : Type 0 where
  pub id : Ident
  pub project_id : Ident
  pub release : Text
  pub manifest_hash : Ident
  pub status : UploadStatus
  pub attempts : ℕ
  pub lease_token : Option Ident
  pub lease_until : Option ℕ
  pub is_invalid : Bool
  pub created_at : ℕ

-- `sourceMapsState`
pub data MapsState : Type 0 where
  missing awaited available broken removed : MapsState

pub record Release : Type 0 where
  pub project_id : Ident
  pub name : Text
  pub maps_state : MapsState
  pub maps_version : ℕ
  pub last_activity_at : ℕ

-- A request whose body has the size and the hash of its artifact.
pub record Flight : Type 0 where
  pub id : Ident
  pub project_id : Ident
  pub upload_id : Ident
  pub bytes : List ℕ

pub record State : Type 0 where
  pub uploads : List Upload
  pub artifacts : List Artifact
  pub releases : List Release
  pub files : Dict Ident (List ℕ)
  pub flights : List Flight

-- SOURCE_MAP_LIMITS
abbrev pub mega : ℕ
mega = 1048576

abbrev pub file_bytes : ℕ
file_bytes = 16 * mega

abbrev pub project_bytes : ℕ
project_bytes = 4096 * mega

abbrev pub installation_bytes : ℕ
installation_bytes = 8192 * mega

abbrev pub disk_reserve : ℕ
disk_reserve = 5120 * mega

abbrev pub is_set : {A : Type 0} → Option A → Bool
is_set none = false
is_set (some a) = true

abbrev pub is_receiving : UploadStatus → Bool
is_receiving receiving = true
is_receiving pending = false
is_receiving validating = false
is_receiving ready = false
is_receiving failed = false

abbrev pub is_failed : UploadStatus → Bool
is_failed failed = true
is_failed receiving = false
is_failed pending = false
is_failed validating = false
is_failed ready = false

abbrev small_file : Option (List ℕ) → Bool
small_file none = false
small_file (some bytes) = leb (length bytes) file_bytes

-- SourceMapStore.exists
abbrev pub exists : Dict Ident (List ℕ) → Ident → Bool
exists files storage = small_file (get files storage)

-- SourceMapStore.write; `none` is the error of a file that is too large.
abbrev pub write : Ident → List ℕ → Dict Ident (List ℕ) → Option (Dict Ident (List ℕ))
write storage bytes files =
    if leb (length bytes) file_bytes then some (set files storage bytes) else none

-- What the disk must hold for a stored file: GROUP BY "storageId", "projectId".
pub record Group : Type 0 where
  pub storage_id : Ident
  pub project_id : Ident
  pub size : ℕ
  pub is_uploaded : Bool

abbrev pub group_of : Artifact → Group
group_of a = record {
  storage_id = a.storage_id;
  project_id = a.project_id;
  size = a.size;
  is_uploaded = is_set a.uploaded_at;
}

abbrev pub in_group : Artifact → Group → Bool
in_group a g = g.storage_id == a.storage_id && g.project_id == a.project_id

pub add_to : Artifact → List Group → List Group
add_to a [] = group_of a ∷ []
add_to a (g ∷ gs) =
    let rest = add_to a gs in
    if in_group a g
    then record g { size = max g.size a.size; is_uploaded = g.is_uploaded || is_set a.uploaded_at }
      ∷ gs
    else g ∷ rest

pub groups : List Artifact → List Group
unfolding add_to
groups [] = []
groups (a ∷ artifacts) = add_to a (groups artifacts)

-- sum(size) FILTER (WHERE …)
abbrev pub sum_size : (Group → Bool) → List Group → ℕ
sum_size p [] = 0
sum_size p (g ∷ gs) = (if p g then g.size else 0) + sum_size p gs

unfoldable pub bytes_of_project : Ident → List Artifact → ℕ
unfolding groups
bytes_of_project project artifacts = sum_size (λ g. g.project_id == project) (groups artifacts)

unfoldable pub bytes_in_all : List Artifact → ℕ
unfolding groups
bytes_in_all artifacts = sum_size (λ g. true) (groups artifacts)

unfoldable pub bytes_reserved : List Artifact → ℕ
unfolding groups
bytes_reserved artifacts = sum_size (λ g. not g.is_uploaded) (groups artifacts)
