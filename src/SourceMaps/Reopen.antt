-- ===== src/SourceMaps/Reopen.antt =====
-- apps/web/src/server/source-maps/upload.ts: the order of a manifest's artifacts, the reserve of the
-- disk, and the part of `beginUpload` for a manifest that was sent before.
use get_exception.Base.{
  Ident, nat_eq, ℕ, ◌+◌, Bool, true, false, not, ◌&&◌, ◌==◌, leb, list_eq, Option, none, some, List,
  [], ◌∷◌, any, filter, if◌then◌else◌,
}
use get_exception.Base.Dict.{Dict}
use get_exception.Base.Table.{update_many}
use get_exception.Ingest.Http.{Text}
use get_exception.Web.AuthError.{Result, ok, err, auth_error, require, ◌>>◌}
use get_exception.SourceMaps.Tables.{
  Artifact, Upload, UploadStatus, receiving, State, disk_reserve, is_set, is_failed, exists,
}

-- A file of the manifest.
pub record ArtifactInput : Type 0 where
  pub path : Text
  pub debug_id : Ident
  pub sha256 : Ident
  pub size : ℕ

pub record UploadInput : Type 0 where
  pub release : Text
  pub artifacts : List ArtifactInput

pub record Listed : Type 0 where
  pub id : Ident
  pub path : Text
  pub uploaded : Bool

pub record Begun : Type 0 where
  pub upload_id : Ident
  pub status : UploadStatus
  pub listed : List Listed

-- `sort`, which keeps the order of what it does not tell apart.
unfoldable pub insert :
    (Text → Text → Bool) → ArtifactInput → List ArtifactInput → List ArtifactInput
insert before a [] = a ∷ []
insert before a (b ∷ bs) =
    let rest = insert before a bs in if before b.path a.path then b ∷ rest else a ∷ b ∷ bs

unfoldable pub sort : (Text → Text → Bool) → List ArtifactInput → List ArtifactInput
unfolding insert
sort before [] = []
sort before (a ∷ rest) = insert before a (sort before rest)

-- `requireDiskReserve`
abbrev disk_has : Option ℕ → ℕ → Result (Unit {0})
disk_has none bytes = err (auth_error 503 (some "source_map_storage_unavailable"))
disk_has (some free) bytes =
    require (leb (bytes + disk_reserve) free) (auth_error 507 (some "source_map_disk_full"))

unfoldable pub require_disk_reserve : Option ℕ → ℕ → Result (Unit {0})
require_disk_reserve free bytes = disk_has free bytes

abbrev pub is_of : Ident → Artifact → Bool
is_of upload a = a.upload_id == upload

-- An artifact of an earlier attempt that must be sent again.
abbrev pub is_lost : Dict Ident (List ℕ) → Artifact → Bool
is_lost files a = not (is_set a.uploaded_at && exists files a.storage_id)

abbrev pub is_id : Artifact → Artifact → Bool
is_id a b = b.id == a.id

abbrev list_reopened : Dict Ident (List ℕ) → List Artifact → List Listed
list_reopened files [] = []
list_reopened files (a ∷ rest) =
    record { id = a.id; path = a.path; uploaded = is_set a.uploaded_at && not (is_lost files a) }
    ∷ list_reopened files rest

abbrev pub is_empty : {A : Type 0} → List A → Bool
is_empty [] = true
is_empty (x ∷ xs) = false

-- A manifest that was sent before: what is not on the disk must be sent again.
unfoldable pub reopen : Upload → State → Result (State × Begun)
reopen prior s = do
  require (not (is_failed prior.status)) (auth_error 409 (some "source_map_failed"))
  let files = filter (is_of prior.id) s.artifacts
  let lost = filter (is_lost s.files) files
  ok (
      if is_empty lost
      then (
        s,
        record {
          upload_id = prior.id;
          status = prior.status;
          listed = list_reopened s.files files;
        },
      )
      else (
        record s {
          artifacts =
              update_many (λ a. any (is_id a) lost) (λ a. record a { uploaded_at = none })
                s.artifacts;
          uploads =
              update_many (λ u. u.id == prior.id)
                (λ u. record u { status = receiving; attempts = 0 }) s.uploads;
        },
        record { upload_id = prior.id; status = receiving; listed = list_reopened s.files files },
      ))
