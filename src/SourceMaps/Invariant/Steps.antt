-- ===== src/SourceMaps/Invariant/Steps.antt =====
-- The other steps keep the uploads sound.
use get_exception.Base.{
  Ident, nat_eq, length, ltb, ℕ, ◌≡◌, refl, subst, ◌⊎◌, inl, inr, Bool, true, not, ◌&&◌, ◌==◌,
  ==_iff, Option, none, some, List, [], ◌∷◌, All, all, any, filter, map, arith, Bool-cases,
  Option-cases,
}
use get_exception.Base.Dict.{set, get-set}
use get_exception.Base.Table.{update_many, find_first, All-update_many}
use get_exception.SourceMaps.Tables.{
  Artifact, Flight, Upload, UploadStatus, pending, State, is_receiving, is_failed, write,
}
use get_exception.SourceMaps.Reopen.{is_of, require_disk_reserve}
use get_exception.SourceMaps.Write.{is_sent, is_artifact}
use get_exception.SourceMaps.Ghost.{Ghost, IsOwned, IsCarried, IsKept}
use get_exception.SourceMaps.Prepared.{find_first-All, All-map}
use get_exception.Web.AuthError.{Result, auth_error}
use get_exception.Web.AuthError.After.{After, After-require, After-bind}
use get_exception.SourceMaps.Invariant.{is_published, is_complete, IsPublished, IsSound}
use get_exception.SourceMaps.Write.{receive, store_artifact, finish_upload, is_upload}
use get_exception.SourceMaps.Validate.{
  claim_upload, claimed, is_claimable, is_owned, renew, settle_upload, settles, finish_validation,
}
use get_exception.SourceMaps.Scope.{UploadPrincipal, assert_upload_scope}
use get_exception.Web.AuthError.{failure}
use get_exception.Web.AuthError.After.{After-found}
use get_exception.SourceMaps.Invariant.Reopen.{any-elim}
use get_exception.Base.Table.{first_by}
use get_exception.Base.Table.Keys.{In, All-In}
use get_exception.SourceMaps.Tables.{bytes_reserved}

sent_complete :
    (q : Artifact → Bool) (now : ℕ) (id : Ident) (rows : List Artifact)
    → is_complete rows id ≡ true
    → is_complete (update_many q (λ a. record a { uploaded_at = some now }) rows) id ≡ true
sent_complete q now id [] c = refl
sent_complete q now id (a ∷ rows) c = ground (arith, c, sent_complete q now id rows)

first_by-All :
    {A : Type 0} (P : A → Type 0) (before : A → A → Bool) (rows : List A) (a : A)
    → All P rows
    → first_by before rows ≡ some a
    → P a
first_by-All P before [] a h e = absurd (ground (arith, e))
first_by-All P before (r ∷ rows) a h e = elim (Option-cases (first_by before rows)) [
  | inl n ↦ let same : r ≡ a = ground (arith, rw n at e) in subst P same h.0
  | inr (b, n) ↦
      let ih = first_by-All P before rows b h.1 n in
      let either : (r ≡ a) ⊎ (b ≡ a) = ground (arith, rw n at e) in
      elim either [ inl x ↦ subst P x h.0 | inr x ↦ subst P x ih ]
]

claimable-All :
    (live locked : Ident → Bool) (now : ℕ) (rows : List Artifact) (uploads : List Upload)
    → All (IsPublished rows) uploads
    → All (λ u. is_complete rows u.id ≡ true) (filter (is_claimable live locked now) uploads)
claimable-All live locked now rows [] h = tt
claimable-All live locked now rows (u ∷ uploads) h =
    elim (Bool-cases (is_claimable live locked now u)) [
      | inl e ↦
          let due : is_published u.status ≡ true = ground (arith, e) in
          rw e (h.0 due, claimable-All live locked now rows uploads h.1)
      | inr e ↦ rw e (claimable-All live locked now rows uploads h.1)
    ]

module _ (hash : List ℕ → Ident) (g : Ghost) (s : State) (h : IsSound hash g s) where
  module _ (project upload id : Ident) where
    abbrev is_it : Artifact → Bool
    is_it = is_artifact project upload id s.uploads

    pub receive-IsSound :
        (authorized : Result UploadPrincipal) (body : Result (List ℕ))
        (again : Result UploadPrincipal)
        → After (IsSound hash g) (receive hash authorized project upload id body again s)
    unfolding receive
    receive-IsSound authorized body again = After-bind (IsSound hash g) authorized _ λ principal _.
        After-found (IsSound hash g) (find_first is_it s.artifacts) (auth_error 404 none) _
          λ file at.
            let own = find_first-All (IsOwned g) is_it s.artifacts file h.holds.0 at in
            After-bind (IsSound hash g)
              (assert_upload_scope principal file.release (file.path ∷ [])) _
              λ _ _. After-bind (IsSound hash g) body _ λ bytes _.
                After-require (IsSound hash g)
                  (length bytes == file.size && hash bytes == file.sha256)
                  (auth_error 400 (some "source_map_checksum")) _
                  λ same. After-bind (IsSound hash g) again _ λ principal' _.
                    After-bind (IsSound hash g)
                      (assert_upload_scope principal' file.release (file.path ∷ [])) _
                      λ _ _.
                        let carried : g.hash_of id ≡ hash bytes =
                          ground (
                            arith,
                            own,
                            same,
                            ==_iff file.id id,
                            ==_iff (hash bytes) file.sha256,
                          ) in
                        record {
                          holds = (h.holds.0, (carried, h.holds.1), h.holds.2);
                          complete = h.complete;
                        }

  -- A change of uploads to which the artifacts of each are complete.
  with_uploads :
      (uploads : List Upload)
      → All (IsPublished s.artifacts) uploads
      → IsSound hash g (record s { uploads = uploads })
  with_uploads uploads c = record { holds = h.holds; complete = c }

  same_id :
      (id : Ident) (q : Upload → Bool) (f : Upload → Upload)
      → ((u : Upload) → q u ≡ true → u.id ≡ id)
      → ((u : Upload) → (f u).id ≡ u.id)
      → is_complete s.artifacts id ≡ true
      → All (IsPublished s.artifacts) (update_many q f s.uploads)
  same_id id q f k l c =
      All-update_many (IsPublished s.artifacts) q f s.uploads h.complete
        (λ u e _. λ p. rw (l u, k u e) c)

  pub store_artifact-IsSound :
      (f : Flight) (free : Option ℕ) (now : ℕ)
      → In f s.flights
      → After (IsSound hash g) (store_artifact f free now s)
  unfolding store_artifact
  store_artifact-IsSound f free now m =
      let it = is_artifact f.project_id f.upload_id f.id s.uploads in
      After-found (IsSound hash g) (find_first it s.artifacts) (auth_error 409 none) _ λ current at.
        let own = find_first-All (IsOwned g) it s.artifacts current h.holds.0 at in
        let carried = All-In (IsCarried hash g) f s.flights h.holds.1 m in
        After-bind (IsSound hash g) (require_disk_reserve free (bytes_reserved s.artifacts)) _
          λ _ _.
            After-found (IsSound hash g) (write current.storage_id f.bytes s.files) failure _
              λ files written.
                let set_here : files ≡ set s.files current.storage_id f.bytes =
                  ground (arith, written) in
                let kept : IsKept hash g files = λ storage bytes e. ground (
                  arith,
                  own,
                  carried,
                  e,
                  set_here,
                  h.holds.2 storage bytes,
                  ==_iff current.id f.id,
                  ==_iff current.storage_id storage,
                  get-set s.files current.storage_id storage f.bytes,
                ) in
                record {
                  holds = (
                    All-update_many (IsOwned g) _ _ s.artifacts h.holds.0 (λ a e o. o),
                    h.holds.1,
                    kept,
                  );
                  complete =
                      All-map (IsPublished s.artifacts) _ s.uploads
                        (λ u c p. sent_complete _ now u.id s.artifacts (c p)) h.complete;
                }

  pub finish_upload-IsSound :
      (authorized : Result UploadPrincipal) (project id : Ident)
      → After (λ r. IsSound hash g r.0) (finish_upload authorized project id s)
  unfolding finish_upload
  finish_upload-IsSound authorized project id =
      After-bind (λ (r : State × UploadStatus). IsSound hash g r.0) authorized _
        λ principal _.
          After-found (λ (r : State × UploadStatus). IsSound hash g r.0)
            (find_first (is_upload project id) s.uploads) (auth_error 404 none) _
            λ upload at.
              After-bind (λ (r : State × UploadStatus). IsSound hash g r.0)
                (assert_upload_scope principal upload.release
                  (map (λ a. a.path) (filter (is_of id) s.artifacts)))
                _
                λ _ _.
                  After-require (λ (r : State × UploadStatus). IsSound hash g r.0)
                    (all (is_sent id) s.artifacts) (auth_error 409 (some "source_map_incomplete")) _
                    λ c.
                      After-require (λ (r : State × UploadStatus). IsSound hash g r.0)
                        (not (is_failed upload.status)) (auth_error 409 (some "source_map_failed"))
                        _
                        λ _. with_uploads _ (
                          same_id id (λ u. u.id == id && is_receiving upload.status)
                            (λ u. record u { status = pending })
                            (λ u e. ground (arith, e, ==_iff u.id id)) (λ u. refl) c)

  pub claim_upload-IsSound :
      (live locked : Ident → Bool) (token : Ident) (now : ℕ)
      → IsSound hash g (claim_upload live locked token now s).0
  unfolding claim_upload
  claim_upload-IsSound live locked token now =
      let rows = filter (is_claimable live locked now) s.uploads in
      let first = first_by (λ u v. ltb u.created_at v.created_at) rows in
      elim (Option-cases first) [
        | inl e ↦ rw e h
        | inr (u, e) ↦
            let c =
              first_by-All (λ u. is_complete s.artifacts u.id ≡ true) _ rows u
                (claimable-All live locked now s.artifacts s.uploads h.complete) e in
            rw e (
              with_uploads _ (
                same_id u.id (λ v. v.id == u.id) (claimed token now)
                  (λ v t. ground (arith, t, ==_iff v.id u.id)) (λ v. refl) c))
      ]

  pub renew-IsSound : (job : Upload) (now : ℕ) → IsSound hash g (renew job now s)
  unfolding renew
  renew-IsSound job now =
      with_uploads _ (
        All-update_many (IsPublished s.artifacts) (is_owned job) _ s.uploads h.complete
          (λ u e c. c))

  pub finish_validation-IsSound :
      (valid : Bool) (job : Upload) → IsSound hash g (finish_validation valid job s)
  unfolding finish_validation
  finish_validation-IsSound valid job = elim (Bool-cases (settles valid job s)) [
    | inl e ↦
        let owned : any (is_owned job) s.uploads ≡ true = ground (arith, e) in
        let u = any-elim (IsPublished s.artifacts) (is_owned job) s.uploads owned h.complete in
        let c : is_complete s.artifacts job.id ≡ true =
          ground (arith, u.1, u.2, ==_iff u.0.id job.id) in
        let t = with_uploads _ (
          same_id job.id (λ v. v.id == job.id) (settle_upload valid)
            (λ v x. ground (arith, x, ==_iff v.id job.id)) (λ v. refl) c) in
        rw e (record { holds = h.holds; complete = t.complete })
    | inr e ↦ rw e h
  ]
