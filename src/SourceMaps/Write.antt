-- ===== src/SourceMaps/Write.antt =====
-- apps/web/src/server/source-maps/upload.ts, `storeArtifact`, `finishUpload` and `uploadStatus`. A
-- body is received before the transaction that stores it: between the two the request is a
-- `Flight`, and other steps come in between. The answers of authorizeUpload, the body's bytes and
-- the free bytes of the disk are arguments.
use get_exception.Base.{
  Ident, nat_eq, ℕ, Bool, not, ◌&&◌, ◌||◌, ◌==◌, Option, none, some, List, [], ◌∷◌, length, any,
  all, filter, map,
}
use get_exception.Base.Table.{update_many, find_first}
use get_exception.Web.AuthError.{Result, ok, auth_error, failure, require, found, ◌>>=◌, ◌>>◌}
use get_exception.SourceMaps.Tables.{
  Artifact, Upload, UploadStatus, receiving, pending, validating, ready, failed, State, Flight,
  bytes_reserved, is_set, is_receiving, is_failed, write,
}
use get_exception.SourceMaps.Scope.{UploadPrincipal, assert_upload_scope}
use get_exception.SourceMaps.Reopen.{is_of, require_disk_reserve}

-- `upload: { status: "receiving" }`
abbrev pub is_open : Ident → List Upload → Bool
is_open upload uploads = any (λ u. u.id == upload && is_receiving u.status) uploads

abbrev pub is_artifact : Ident → Ident → Ident → List Upload → Artifact → Bool
is_artifact project upload id uploads a =
    a.id == id && a.project_id == project && a.upload_id == upload && is_open upload uploads

module _ (hash : List ℕ → Ident) where
  -- Up to the second authorization: the request is in flight from here on.
  unfoldable pub receive :
      Result UploadPrincipal
      → Ident
      → Ident
      → Ident
      → Result (List ℕ)
      → Result UploadPrincipal
      → State
      → Result State
  receive authorized project upload id body again s = do
    principal ← authorized
    file ←
        found (find_first (is_artifact project upload id s.uploads) s.artifacts)
          (auth_error 404 none)
    assert_upload_scope principal file.release (file.path ∷ [])
    bytes ← body
    require (length bytes == file.size && hash bytes == file.sha256)
        (auth_error 400 (some "source_map_checksum"))
    principal ← again
    assert_upload_scope principal file.release (file.path ∷ [])
    ok (record s {
      flights =
          record { id = id; project_id = project; upload_id = upload; bytes = bytes } ∷ s.flights;
    })

-- The transaction that stores a body.
unfoldable pub store_artifact : Flight → Option ℕ → ℕ → State → Result State
store_artifact f free now s = do
  current ←
      found (find_first (is_artifact f.project_id f.upload_id f.id s.uploads) s.artifacts)
        (auth_error 409 none)
  require_disk_reserve free (bytes_reserved s.artifacts)
  files ← found (write current.storage_id f.bytes s.files) failure
  ok (record s {
    files = files;
    artifacts =
        update_many (λ a. a.id == current.id) (λ a. record a { uploaded_at = some now })
          s.artifacts;
  })

abbrev pub is_upload : Ident → Ident → Upload → Bool
is_upload project id u = u.id == id && u.project_id == project

abbrev pub is_sent : Ident → Artifact → Bool
is_sent upload a = not (is_of upload a) || is_set a.uploaded_at

abbrev pub finished : UploadStatus → UploadStatus
finished receiving = pending
finished pending = pending
finished validating = validating
finished ready = ready
finished failed = failed

-- `finishUpload`
unfoldable pub finish_upload :
    Result UploadPrincipal → Ident → Ident → State → Result (State × UploadStatus)
finish_upload authorized project id s = do
  principal ← authorized
  upload ← found (find_first (is_upload project id) s.uploads) (auth_error 404 none)
  assert_upload_scope principal upload.release (map (λ a. a.path) (filter (is_of id) s.artifacts))
  require (all (is_sent id) s.artifacts) (auth_error 409 (some "source_map_incomplete"))
  require (not (is_failed upload.status)) (auth_error 409 (some "source_map_failed"))
  ok (
    record s {
      uploads =
          update_many (λ u. u.id == id && is_receiving upload.status)
            (λ u. record u { status = pending }) s.uploads;
    },
    finished upload.status,
  )

unfoldable pub upload_status :
    Result UploadPrincipal → Ident → Ident → State → Result (UploadStatus × Bool)
upload_status authorized project id s = do
  principal ← authorized
  upload ← found (find_first (is_upload project id) s.uploads) (auth_error 404 none)
  assert_upload_scope principal upload.release (map (λ a. a.path) (filter (is_of id) s.artifacts))
  ok (upload.status, upload.is_invalid)
