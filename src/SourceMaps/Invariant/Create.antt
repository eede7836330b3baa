-- ===== src/SourceMaps/Invariant/Create.antt =====
-- A new upload keeps the uploads sound.
use get_exception.Base.{
  Ident, nat_eq, ℕ, zero, ◌≡◌, ◌≢◌, refl, inl, inr, Bool, true, false, ==_iff, Option, none, List,
  [], ◌∷◌, ◌++◌, All, arith,
}
use get_exception.Base.Table.{All-append}
use get_exception.SourceMaps.Tables.{Artifact, Upload, receiving, State}
use get_exception.SourceMaps.Begin.{
  list_created, await_maps, create, existing_of, distinct, prepare_all,
}
use get_exception.SourceMaps.Reopen.{UploadInput, ArtifactInput, Begun}
use get_exception.SourceMaps.Ghost.{Ghost, IsOwned}
use get_exception.SourceMaps.Prepared.{
  AreDistinct, AreNew, AreUnused, IsPrepared, prepare_all-IsPrepared,
}
use get_exception.Web.AuthError.{AuthError, Result, ok, err, require, ◌>>◌}
use get_exception.Web.AuthError.After.{After, After-ok, Result-cases}
use get_exception.SourceMaps.Invariant.{is_complete, IsPublished, IsSound}
use get_exception.SourceMaps.Invariant.Reopen.{All-filter}

-- The random identifiers of a new upload are new.
pub record AreFresh (s : State) (upload : Ident) (fresh : ℕ → Ident × Ident) : Type 0 where
  pub distinct_ids : AreDistinct fresh
  pub new_rows : AreNew fresh zero s.artifacts
  pub unused : AreUnused fresh s.flights s.files
  pub new_upload : All (λ u. u.id ≢ upload) s.uploads

All-distinct : (P : Artifact → Type 0) (rows : List Artifact) → All P rows → All P (distinct rows)
unfolding distinct
All-distinct P [] h = tt
All-distinct P (a ∷ rows) h = (h.0, All-filter P _ (distinct rows) (All-distinct P rows h.1))

existing-All :
    (P : Artifact → Type 0) (project : Ident) (inputs : List ArtifactInput) (rows : List Artifact)
    → All P rows
    → All P (existing_of project inputs rows)
unfolding existing_of
existing-All P project inputs rows h = All-distinct P _ (All-filter P _ rows h)

added_complete :
    (upload id : Ident) (added rows : List Artifact)
    → id ≢ upload
    → All (λ a. a.upload_id ≡ upload) added
    → is_complete rows id ≡ true
    → is_complete (rows ++ added) id ≡ true
added_complete upload id [] [] ne h c = refl
added_complete upload id (a ∷ added) [] ne h c =
    ground (arith, h.0, ne, ==_iff a.upload_id id, added_complete upload id added [] ne h.1 c)
added_complete upload id added (r ∷ rows) ne h c =
    ground (arith, c, added_complete upload id added rows ne h)

grown :
    (upload : Ident) (rows added : List Artifact) (uploads : List Upload)
    → All (λ a. a.upload_id ≡ upload) added
    → All (λ u. u.id ≢ upload) uploads
    → All (IsPublished rows) uploads
    → All (IsPublished (rows ++ added)) uploads
grown upload rows added [] h n c = tt
grown upload rows added (u ∷ uploads) h n c = (
  (λ p. added_complete upload u.id added rows n.0 h (c.0 p)),
  grown upload rows added uploads h n.1 c.1,
)

After-guarded :
    {A : Type 0} (P : A → Type 0) (b : Bool) (e : AuthError) (m : Result (Unit {0})) (a : A)
    → P a
    → After P (require b e >> (m >> ok a))
After-guarded P false e m a h = tt
After-guarded P true e (ok u) a h = h
After-guarded P true e (err r) a h = tt

abbrev pub StaysSound : (List ℕ → Ident) → State × Begun → Type 0
StaysSound hash r = (g : Ghost) × IsSound hash g r.0

module _ (hash : List ℕ → Ident) (g : Ghost) (project manifest upload : Ident) (input : UploadInput)
    (fresh : ℕ → Ident × Ident) (free : Option ℕ) (now : ℕ) (s : State)
    (f : AreFresh s upload fresh) (h : IsSound hash g s) where
  abbrev old_rows : List Artifact
  old_rows = existing_of project input.artifacts s.artifacts

  abbrev created : Upload
  created = record {
    id = upload;
    project_id = project;
    release = input.release;
    manifest_hash = manifest;
    status = receiving;
    attempts = 0;
    lease_token = none;
    lease_until = none;
    is_invalid = false;
    created_at = now;
  }

  abbrev grown_state : List Artifact → State
  grown_state added = record s {
    uploads = s.uploads ++ (created ∷ []);
    artifacts = s.artifacts ++ added;
    releases = await_maps project input.release now s.releases;
  }

  rows-IsPrepared :
      After
        (IsPrepared hash project upload input.release fresh s.files old_rows s.flights
          f.distinct_ids f.unused s.artifacts)
        (prepare_all project upload input.release fresh s.files old_rows zero input.artifacts)
  rows-IsPrepared =
      prepare_all-IsPrepared hash project upload input.release fresh s.files old_rows s.flights
        f.distinct_ids f.unused zero input.artifacts s.artifacts g f.new_rows
        (λ j lt. existing-All _ project input.artifacts s.artifacts (f.new_rows j lt))
        (
          existing-All (IsOwned g) project input.artifacts s.artifacts h.holds.0,
          h.holds.1,
          h.holds.2,
        )
        h.holds

  pub create-StaysSound :
      After (StaysSound hash) (create project manifest upload input fresh free now s)
  unfolding create
  create-StaysSound =
      elim (Result-cases
        (prepare_all project upload input.release fresh s.files old_rows zero input.artifacts)) [
          | inl (e, at) ↦ rw at tt
          | inr (added, at) ↦
              let p : IsPrepared hash project upload input.release fresh s.files old_rows s.flights
                  f.distinct_ids f.unused s.artifacts added =
                After-ok
                  (IsPrepared hash project upload input.release fresh s.files old_rows s.flights
                    f.distinct_ids f.unused s.artifacts)
                  _ added rows-IsPrepared at in
              let owned = All-append (IsOwned p.0) s.artifacts added p.1.0 p.2 in
              let rest = grown upload s.artifacts added s.uploads p.3 f.new_upload h.complete in
              let sound : IsSound hash p.0 (grown_state added) = record {
                holds = (owned, p.1.1, p.1.2);
                complete =
                    All-append (IsPublished (s.artifacts ++ added)) s.uploads (created ∷ []) rest
                      ((λ e. absurd (ground (arith, e))), tt);
              } in
              rw at (
                After-guarded (StaysSound hash) _ _ _
                  (
                    grown_state added,
                    record { upload_id = upload; status = receiving; listed = list_created added },
                  )
                  (p.0, sound))
        ]
