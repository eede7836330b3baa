-- ===== src/SourceMaps/Invariant.antt =====
-- What holds of the uploads whatever the steps of the server and the workers.
pub mod Reopen
pub mod Create
pub mod Steps
use get_exception.Base.{
  Ident, Eq, nat_eq, ℕ, ◌+◌, ◌≤◌, zero, ◌≡◌, ◌≢◌, refl, sym, subst, ◌⊎◌, inl, inr, Bool, true,
  false, not, ◌&&◌, ◌||◌, ◌==◌, ==_iff, Option, none, some, List, [], ◌∷◌, ◌++◌, All, all, any,
  filter, arith, if◌then◌else◌, Bool-cases, Option-cases,
}
use get_exception.Base.Dict.{Dict, get, set, get-set}
use get_exception.Base.Table.{update_many, find_first, delete_many, All-update_many, All-append}
use get_exception.Ingest.Http.{Text}
use get_exception.SourceMaps.Tables.{
  Artifact, Flight, Upload, UploadStatus, receiving, pending, validating, ready, failed, State,
  is_set, is_receiving, is_failed, exists, write,
}
use get_exception.SourceMaps.Begin.{create, existing_of, distinct, prepare_all, new_bytes, is_file}
use get_exception.SourceMaps.Reopen.{
  UploadInput, ArtifactInput, Begun, is_of, is_lost, is_id, reopen, require_disk_reserve, is_empty,
}
use get_exception.SourceMaps.Write.{is_sent, is_artifact}
use get_exception.SourceMaps.Ghost.{Ghost, IsOwned, IsCarried, IsKept, Holds}
use get_exception.SourceMaps.Prepared.{
  AreDistinct, AreNew, AreUnused, IsPrepared, prepare_all-IsPrepared, find_first-All, All-map,
}
use get_exception.Web.AuthError.{Result, ok, err, auth_error, require, ◌>>=◌, ◌>>◌}
use get_exception.Web.AuthError.After.{After, After-require, After-bind, After-ok, Result-cases}

-- All files of the upload have been sent when it is in one of these states.
abbrev pub is_published : UploadStatus → Bool
is_published receiving = false
is_published pending = true
is_published validating = true
is_published ready = true
is_published failed = false

abbrev pub is_complete : List Artifact → Ident → Bool
is_complete artifacts upload = all (is_sent upload) artifacts

abbrev pub IsPublished : List Artifact → Upload → Type 0
IsPublished artifacts u = is_published u.status ≡ true → is_complete artifacts u.id ≡ true

module _ (hash : List ℕ → Ident) where
  pub record IsSound (g : Ghost) (s : State) : Type 0 where
    pub holds : Holds hash g s.artifacts s.flights s.files
    pub complete : All (IsPublished s.artifacts) s.uploads
