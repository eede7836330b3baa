-- ===== src/SourceMaps/Prepared.antt =====
-- The rows of a new upload agree with those that are there.
use get_exception.Base.{
  Ident, nat_eq, ℕ, ◌≤◌, suc, ◌≡◌, ◌≢◌, refl, subst, inl, inr, Bool, true, false, not, ◌&&◌, ◌||◌,
  ◌==◌, ==_iff, none, some, List, [], ◌∷◌, All, any, arith, Bool-cases, Option-cases, ◌===◌,
  list_eq,
}
use get_exception.Base.Dict.{Dict, get}
use get_exception.Base.Table.{find_first}
use get_exception.Ingest.Http.{Text}
use get_exception.SourceMaps.Tables.{Artifact, Flight}
use get_exception.SourceMaps.Begin.{prepare, prepare_all, conflicts, is_file}
use get_exception.SourceMaps.Reopen.{ArtifactInput}
use get_exception.SourceMaps.Ghost.{
  Ghost, IsOwned, IsApart, Holds, Agrees, extend, extend_self, extend-Holds,
}
use get_exception.Web.AuthError.{ok, auth_error, ◌>>=◌}
use get_exception.Web.AuthError.After.{After, After-require, After-ok, Result-cases}

pub All-map :
    {A : Type 0} (P Q : A → Type 0) (rows : List A)
    → ((a : A) → P a → Q a)
    → All P rows
    → All Q rows
All-map P Q [] f h = tt
All-map P Q (r ∷ rows) f h = (f r h.0, All-map P Q rows f h.1)

pub find_first-All :
    {A : Type 0} (P : A → Type 0) (p : A → Bool) (rows : List A) (a : A)
    → All P rows
    → find_first p rows ≡ some a
    → P a × (p a ≡ true)
find_first-All P p [] a h e = absurd (ground (arith, e))
find_first-All P p (r ∷ rows) a h e = elim (Bool-cases (p r)) [
  | inl t ↦
      let same : r ≡ a = ground (arith, rw t at e) in subst (λ x. P x × (p x ≡ true)) same (h.0, t)
  | inr t ↦ find_first-All P p rows a h.1 (rw t at e)
]

pub any-All :
    {A : Type 0} (p : A → Bool) (rows : List A) → any p rows ≡ false → All (λ a. p a ≡ false) rows
any-All p [] e = tt
any-All p (r ∷ rows) e = ground (arith, e, any-All p rows)

-- No two random identifiers are the same.
abbrev pub AreDistinct : (ℕ → Ident × Ident) → Type 0
AreDistinct fresh =
    ((i j : ℕ) → (fresh i).0 ≡ (fresh j).0 → i ≡ j)
    × ((i j : ℕ) → (fresh i).1 ≡ (fresh j).1 → i ≡ j)

-- From the k-th on they are new to rows, to requests and to files.
abbrev pub AreNew : (ℕ → Ident × Ident) → ℕ → List Artifact → Type 0
AreNew fresh k rows = (j : ℕ) → k ≤ j → All (IsApart (fresh j).0 (fresh j).1) rows

abbrev pub AreUnused : (ℕ → Ident × Ident) → List Flight → Dict Ident (List ℕ) → Type 0
AreUnused fresh flights files =
    ((j : ℕ) → All (λ f. f.id ≢ (fresh j).0) flights) × ((j : ℕ) → get files (fresh j).1 ≡ none)

module _ (hash : List ℕ → Ident) (project upload : Ident) (release : Text)
    (fresh : ℕ → Ident × Ident) (files : Dict Ident (List ℕ)) (existing : List Artifact)
    (flights : List Flight) (distinct : AreDistinct fresh)
    (unused : AreUnused fresh flights files) where
  abbrev row : ℕ → ArtifactInput → Artifact
  row k i = prepare project upload release fresh files existing k i

  -- The row takes a new file, or that of an artifact with the same hash.
  first-Agrees :
      (g : Ghost) (k : ℕ) (i : ArtifactInput) (rows : List Artifact)
      → find_first (is_file i) existing ≡ none
      → AreNew fresh k rows
      → Holds hash g rows flights files
      → Agrees hash (row k i) rows flights files
  first-Agrees g k i rows e new h = rw e (
    All-map _ _ rows (λ b apart. (apart.0, λ same. absurd (apart.1 same))) (new k (omega arith)),
    unused.0 k,
    λ storage bytes at same.
        absurd (ground (arith, at, unused.1 k, subst (λ x. get files x ≡ some bytes) same at)),
  )

  next-Agrees :
      (g : Ghost) (k : ℕ) (i : ArtifactInput) (rows : List Artifact) (a : Artifact)
      → find_first (is_file i) existing ≡ some a
      → a.sha256 ≡ i.sha256
      → IsOwned g a
      → AreNew fresh k rows
      → Holds hash g rows flights files
      → Agrees hash (row k i) rows flights files
  next-Agrees g k i rows a e same_hash own new h = rw e (
    both rows (new k (omega arith)) h.0,
    unused.0 k,
    λ storage bytes at same.
        let c = h.2 storage bytes at in ground (arith, c, own, same_hash, same),
  )
    where
      both :
          (bs : List Artifact)
          → All (IsApart (fresh k).0 (fresh k).1) bs
          → All (IsOwned g) bs
          → All (λ b. (b.id ≢ (fresh k).0) × (b.storage_id ≡ a.storage_id → b.sha256 ≡ i.sha256)) bs
      both [] x y = tt
      both (b ∷ bs) x y =
          let same : b.storage_id ≡ a.storage_id → b.sha256 ≡ i.sha256 =
            λ e. ground (arith, y.0, own, same_hash, e) in
          ((x.0.0, same), both bs x.1 y.1)

  row-Agrees :
      (g : Ghost) (k : ℕ) (i : ArtifactInput) (rows : List Artifact)
      → conflicts project upload release fresh files existing i ≡ false
      → All (IsOwned g) existing
      → AreNew fresh k rows
      → Holds hash g rows flights files
      → Agrees hash (row k i) rows flights files
  row-Agrees g k i rows ne own new h = elim (Option-cases (find_first (is_file i) existing)) [
    | inl e ↦ first-Agrees g k i rows e new h
    | inr (a, e) ↦
        let o = find_first-All (IsOwned g) (is_file i) existing a own e in
        let c =
          find_first-All
            (λ b.
              (is_file i b
                && (not (b.sha256 == i.sha256)
                    || not (b.size == i.size)
                    || not (b.path === i.path)))
              ≡ false)
            (is_file i) existing a (any-All _ existing ne) e in
        next-Agrees g k i rows a e (ground (arith, c, ==_iff a.sha256 i.sha256)) o.0 new h
  ]

  row-IsApart :
      (k j : ℕ) (i : ArtifactInput)
      → suc k ≤ j
      → AreNew fresh k existing
      → IsApart (fresh j).0 (fresh j).1 (row k i)
  row-IsApart k j i lt new = (
    (λ e. absurd (let same = distinct.0 k j e in omega arith)),
    elim (Option-cases (find_first (is_file i) existing)) [
      | inl e ↦ rw e (λ s. absurd (let same = distinct.1 k j s in omega arith))
      | inr (a, e) ↦
          rw e
            (find_first-All (IsApart (fresh j).0 (fresh j).1) (is_file i) existing a
              (new j (omega arith)) e).0.1
    ],
  )

  -- What a new upload keeps: the rows it adds are recorded beside those that were there.
  abbrev pub IsPrepared : List Artifact → List Artifact → Type 0
  IsPrepared rows added =
      (g : Ghost) × Holds hash g rows flights files
      × All (IsOwned g) added
      × All (λ a. a.upload_id ≡ upload) added

  pub prepare_all-IsPrepared :
      (k : ℕ) (inputs : List ArtifactInput) (rows : List Artifact) (g : Ghost)
      → AreNew fresh k rows
      → AreNew fresh k existing
      → Holds hash g existing flights files
      → Holds hash g rows flights files
      → After (IsPrepared rows) (prepare_all project upload release fresh files existing k inputs)
  unfolding prepare_all
  prepare_all-IsPrepared k [] rows g new old he h = (g, h, tt, tt)
  prepare_all-IsPrepared k (i ∷ inputs) rows g new old he h =
      After-require (IsPrepared rows)
        (not (conflicts project upload release fresh files existing i))
        (auth_error 409 (some "source_map_conflict"))
        (prepare_all project upload release fresh files existing (suc k) inputs >>= λ added.
          ok (row k i ∷ added))
        λ c.
          let clear : conflicts project upload release fresh files existing i ≡ false =
            ground (arith, c) in
          let g' = extend g (row k i) in
          let he' =
            extend-Holds hash g (row k i) existing flights files
              (row-Agrees g k i existing clear he.0 old he) he in
          let h' =
            extend-Holds hash g (row k i) rows flights files
              (row-Agrees g k i rows clear he.0 new h) h in
          let ih =
            prepare_all-IsPrepared (suc k) inputs (row k i ∷ rows) g'
              (λ j lt. (row-IsApart k j i lt old, new j (omega arith)))
              (λ j lt. old j (omega arith)) he' ((extend_self g (row k i), h'.0), h'.1, h'.2) in
          elim (Result-cases
            (prepare_all project upload release fresh files existing (suc k) inputs)) [
              | inl (e, at) ↦ rw at tt
              | inr (added, at) ↦
                  let p : IsPrepared (row k i ∷ rows) added =
                    After-ok (IsPrepared (row k i ∷ rows)) _ added ih at in
                  rw at (p.0, (p.1.0.1, p.1.1, p.1.2), (p.1.0.0, p.2), (refl, p.3))
            ]
