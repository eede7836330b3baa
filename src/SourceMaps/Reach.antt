-- ===== src/SourceMaps/Reach.antt =====
-- The runs of the server and the workers on the uploads.
use get_exception.Base.{
  Ident, ℕ, ◌≡◌, Bool, nat_eq, Option, none, some, List, [], All, Option-cases, inl, inr, arith,
}
use get_exception.Base.Dict.{get}
use get_exception.Base.Table.{find_first}
use get_exception.Base.Table.Keys.{In, All-In}
use get_exception.Ingest.Http.{Text}
use get_exception.SourceMaps.Tables.{Artifact, Flight, Upload, UploadStatus, State}
use get_exception.SourceMaps.Scope.{UploadPrincipal, assert_upload_scope}
use get_exception.SourceMaps.Begin.{begin_upload, is_manifest}
use get_exception.SourceMaps.Reopen.{UploadInput, ArtifactInput, Begun, reopen, sort}
use get_exception.SourceMaps.Write.{receive, store_artifact, finish_upload}
use get_exception.SourceMaps.Validate.{claim_upload, renew, finish_validation}
use get_exception.SourceMaps.Ghost.{Ghost, IsOwned}
use get_exception.SourceMaps.Invariant.{IsPublished, IsSound}
use get_exception.SourceMaps.Invariant.Reopen.{reopen-IsSound}
use get_exception.SourceMaps.Invariant.Create.{AreFresh, StaysSound, create-StaysSound}
use get_exception.SourceMaps.Invariant.Steps.{
  receive-IsSound, store_artifact-IsSound, finish_upload-IsSound, claim_upload-IsSound,
  renew-IsSound, finish_validation-IsSound,
}
use get_exception.Web.AuthError.{Result, ok, auth_error}
use get_exception.Web.AuthError.After.{After, After-require, After-bind, After-ok, Result-cases}

abbrev pub nothing : State
nothing = record { uploads = []; artifacts = []; releases = []; files = []; flights = [] }

module _ (before : Text → Text → Bool) (manifest_of : Text → List ArtifactInput → Ident)
    (hash : List ℕ → Ident) where
  -- A step of any request or worker. The identifiers of a new upload are random, so new.
  pub data Step : State → State → Type 0 where
    by_begin :
        (authorized : Result UploadPrincipal) (limited : Result (Unit {0})) (live : Bool)
        (project : Ident) (input : UploadInput) (upload : Ident) (fresh : ℕ → Ident × Ident)
        (free : Option ℕ) (now : ℕ) (s t : State) (b : Begun)
        → AreFresh s upload fresh
        → begin_upload before manifest_of authorized limited live project input upload fresh free
            now s
          ≡ ok (t, b)
        → Step s t
    by_receive :
        (authorized : Result UploadPrincipal) (project upload id : Ident) (body : Result (List ℕ))
        (again : Result UploadPrincipal) (s t : State)
        → receive hash authorized project upload id body again s ≡ ok t
        → Step s t
    by_store :
        (f : Flight) (free : Option ℕ) (now : ℕ) (s t : State)
        → In f s.flights
        → store_artifact f free now s ≡ ok t
        → Step s t
    by_finish :
        (authorized : Result UploadPrincipal) (project id : Ident) (s t : State)
        (status : UploadStatus)
        → finish_upload authorized project id s ≡ ok (t, status)
        → Step s t
    by_claim :
        (live locked : Ident → Bool) (token : Ident) (now : ℕ) (s : State)
        → Step s (claim_upload live locked token now s).0
    by_renew : (job : Upload) (now : ℕ) (s : State) → Step s (renew job now s)
    by_validation :
        (valid : Bool) (job : Upload) (s : State) → Step s (finish_validation valid job s)

  pub data Reach : State → Type 0 where
    start : Reach nothing
    next : {s t : State} → Reach s → Step s t → Reach t

  begin_upload-StaysSound :
      (g : Ghost) (authorized : Result UploadPrincipal) (limited : Result (Unit {0})) (live : Bool)
      (project : Ident) (input : UploadInput) (upload : Ident) (fresh : ℕ → Ident × Ident)
      (free : Option ℕ) (now : ℕ) (s : State)
      → AreFresh s upload fresh
      → IsSound hash g s
      → After (StaysSound hash) (
          begin_upload before manifest_of authorized limited live project input upload fresh free
            now s)
  unfolding begin_upload
  begin_upload-StaysSound g authorized limited live project input upload fresh free now s f h =
      let sorted = record input { artifacts = sort before input.artifacts } in
      let manifest = manifest_of input.release (sort before input.artifacts) in
      let found = find_first (is_manifest project manifest) s.uploads in
      After-bind (StaysSound hash) authorized _ λ principal _.
        After-bind (StaysSound hash) (assert_upload_scope principal input.release _) _ λ _ _.
          After-bind (StaysSound hash) limited _ λ _ _.
            After-require (StaysSound hash) live (auth_error 404 none) _ λ _.
              elim (Option-cases found) [
                | inl e ↦
                    rw e
                      (create-StaysSound hash g project manifest upload sorted fresh free now s f h)
                | inr (prior, e) ↦ rw e (elim (Result-cases (reopen prior s)) [
                  | inl (x, at) ↦ rw at tt
                  | inr (r, at) ↦ rw at (
                    g,
                    After-ok (λ (r : State × Begun). IsSound hash g r.0) (reopen prior s) r
                        (reopen-IsSound hash g prior s h) at,
                  )
                ])
              ]

  Step-sound :
      {s t : State} → Step s t → (g : Ghost) → IsSound hash g s → (g' : Ghost) × IsSound hash g' t
  Step-sound (by_begin authorized limited live project input upload fresh free now s t b f e) g h =
      After-ok (StaysSound hash) _ (t, b)
        (begin_upload-StaysSound g authorized limited live project input upload fresh free now s f
          h)
        e
  Step-sound (by_receive authorized project upload id body again s t e) g h = (
    g,
    After-ok (IsSound hash g) _ t
        (receive-IsSound hash g s h project upload id authorized body again) e,
  )
  Step-sound (by_store f free now s t m e) g h =
      (g, After-ok (IsSound hash g) _ t (store_artifact-IsSound hash g s h f free now m) e)
  Step-sound (by_finish authorized project id s t status e) g h = (
    g,
    After-ok (λ (r : State × UploadStatus). IsSound hash g r.0) _ (t, status)
        (finish_upload-IsSound hash g s h authorized project id) e,
  )
  Step-sound (by_claim live locked token now s) g h =
      (g, claim_upload-IsSound hash g s h live locked token now)
  Step-sound (by_renew job now s) g h = (g, renew-IsSound hash g s h job now)
  Step-sound (by_validation valid job s) g h = (g, finish_validation-IsSound hash g s h valid job)

  no_ghost : Ghost
  no_ghost = record { upload_of = λ i. i; hash_of = λ i. i; content_of = λ i. i }

  Reach-IsSound : {s : State} → Reach s → (g : Ghost) × IsSound hash g s
  unfolding get
  Reach-IsSound start = (
    no_ghost,
    record { holds = (tt, tt, λ storage bytes e. absurd (ground (arith, e))); complete = tt },
  )
  Reach-IsSound (next r x) = let h = Reach-IsSound r in Step-sound x h.0 h.1

  -- However requests and workers interleave, the file that is stored for an artifact has the hash that
  -- its manifest names, also where artifacts share a file.
  pub stored-hash :
      (s : State) (a : Artifact) (bytes : List ℕ)
      → Reach s
      → In a s.artifacts
      → get s.files a.storage_id ≡ some bytes
      → hash bytes ≡ a.sha256
  stored-hash s a bytes r m e =
      let h = Reach-IsSound r in
      let own = All-In (IsOwned h.0) a s.artifacts h.1.holds.0 m in
      let kept = h.1.holds.2 a.storage_id bytes e in ground (arith, own, kept)

  -- However requests and workers interleave, every artifact of an upload that waits for its
  -- validation, is validated or is ready has been sent.
  pub reach-IsPublished : (s : State) → Reach s → All (IsPublished s.artifacts) s.uploads
  reach-IsPublished s r = (Reach-IsSound r).1.complete
