-- ===== src/SourceMaps/Invariant/Reopen.antt =====
-- A manifest that is sent again keeps the uploads sound.
use get_exception.Base.{
  Ident, nat_eq, ℕ, ◌≡◌, ◌≢◌, refl, inl, inr, Bool, true, ◌==◌, ==_iff, none, List, [], ◌∷◌, All,
  any, filter, arith, if◌then◌else◌, Bool-cases,
}
use get_exception.Base.Table.{update_many, All-update_many}
use get_exception.SourceMaps.Tables.{Artifact, Upload, receiving, State, is_failed}
use get_exception.SourceMaps.Reopen.{is_of, is_lost, is_id, reopen, is_empty}
use get_exception.SourceMaps.Ghost.{Ghost, IsOwned}
use get_exception.Web.AuthError.After.{After}
use get_exception.SourceMaps.Invariant.{is_complete, IsPublished, IsSound}

pub All-filter :
    {A : Type 0} (P : A → Type 0) (p : A → Bool) (rows : List A)
    → All P rows
    → All P (filter p rows)
All-filter P p [] h = tt
All-filter P p (r ∷ rows) h = ground (arith, h, All-filter P p rows h.1)

pub any-elim :
    {A : Type 0} (P : A → Type 0) (q : A → Bool) (rows : List A)
    → any q rows ≡ true
    → All P rows
    → (a : A) × P a × (q a ≡ true)
any-elim P q [] e h = absurd (ground (arith, e))
any-elim P q (r ∷ rows) e h = elim (Bool-cases (q r)) [
  | inl t ↦ (r, h.0, t)
  | inr t ↦ any-elim P q rows (rw t at e) h.1
]

abbrev reset : Artifact → Artifact
reset a = record a { uploaded_at = none }

-- Resetting the rows of one upload leaves the others complete.
reset_complete :
    (upload : Ident) (q : Artifact → Bool) (rows : List Artifact)
    → All (λ a. q a ≡ true → a.upload_id ≢ upload) rows
    → is_complete rows upload ≡ true
    → is_complete (update_many q reset rows) upload ≡ true
reset_complete upload q [] h c = refl
reset_complete upload q (a ∷ rows) h c =
    ground (arith, h.0, c, ==_iff a.upload_id upload, reset_complete upload q rows h.1)

abbrev back : Upload → Upload
back u = record u { status = receiving; attempts = 0 }

back_complete :
    (old new : List Artifact) (prior : Ident) (uploads : List Upload)
    → ((id : Ident) → id ≢ prior → is_complete old id ≡ true → is_complete new id ≡ true)
    → All (IsPublished old) uploads
    → All (IsPublished new) (update_many (λ u. u.id == prior) back uploads)
back_complete old new prior [] f h = tt
back_complete old new prior (u ∷ uploads) f h =
    let here : IsPublished new (if u.id == prior then back u else u) =
      elim (Bool-cases (u.id == prior)) [
        | inl e ↦ rw e (λ p. absurd (ground (arith, p)))
        | inr e ↦ rw e (λ p. f u.id (ground (arith, e, ==_iff u.id prior)) (h.0 p))
      ] in
    (here, back_complete old new prior uploads f h.1)

-- The rows with the identifiers of an upload's rows are that upload's.
lost-upload :
    (g : Ghost) (prior : Ident) (lost rows : List Artifact)
    → All (λ b. IsOwned g b × (is_of prior b ≡ true)) lost
    → All (IsOwned g) rows
    → (upload : Ident) → upload ≢ prior
    → All (λ a. any (is_id a) lost ≡ true → a.upload_id ≢ upload) rows
lost-upload g prior lost [] l h upload ne = tt
lost-upload g prior lost (a ∷ rows) l h upload ne = (
  (λ e.
      let b = any-elim (λ b. IsOwned g b × (is_of prior b ≡ true)) (is_id a) lost e l in
      ground (arith, b.1, b.2, h.0, ne, ==_iff b.0.id a.id, ==_iff b.0.upload_id prior)),
  lost-upload g prior lost rows l h.1 upload ne,
)

module _ (hash : List ℕ → Ident) (g : Ghost) (prior : Upload) (s : State) where
  abbrev lost_rows : List Artifact
  lost_rows = filter (is_lost s.files) (filter (is_of prior.id) s.artifacts)

  lost-IsOwned :
      (rows : List Artifact)
      → All (IsOwned g) rows
      → All (λ b. IsOwned g b × (is_of prior.id b ≡ true)) (filter (is_of prior.id) rows)
  lost-IsOwned [] h = tt
  lost-IsOwned (a ∷ rows) h = elim (Bool-cases (is_of prior.id a)) [
    | inl e ↦ rw e ((h.0, e), lost-IsOwned rows h.1)
    | inr e ↦ rw e (lost-IsOwned rows h.1)
  ]

  pub reopen-IsSound : IsSound hash g s → After (λ r. IsSound hash g r.0) (reopen prior s)
  unfolding reopen
  reopen-IsSound h =
      let lost =
        All-filter (λ b. IsOwned g b × (is_of prior.id b ≡ true)) (is_lost s.files) _
          (lost-IsOwned s.artifacts h.holds.0) in
      let new = update_many (λ a. any (is_id a) lost_rows) reset s.artifacts in
      let others : (id : Ident)
          → id ≢ prior.id
          → is_complete s.artifacts id ≡ true
          → is_complete new id ≡ true =
        λ id ne c.
          reset_complete id _ s.artifacts
            (lost-upload g prior.id lost_rows s.artifacts lost h.holds.0 id ne) c in
      let owned : All (IsOwned g) new =
        All-update_many (IsOwned g) _ reset s.artifacts h.holds.0 (λ a e o. o) in
      elim (Bool-cases (is_failed prior.status)) [
        | inl f ↦ rw f tt
        | inr f ↦ rw f (elim (Bool-cases (is_empty lost_rows)) [
          | inl e ↦ rw e h
          | inr e ↦ rw e (record {
            holds = (owned, h.holds.1, h.holds.2);
            complete = back_complete s.artifacts new prior.id s.uploads others h.complete;
          })
        ])
      ]
