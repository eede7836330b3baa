-- ===== src/SourceMaps/Validate/Fence.antt =====
-- A worker that has lost its lease.
use get_exception.Base.{
  Ident, nat_eq, ℕ, ◌≡◌, ◌≢◌, refl, Bool, false, ◌==◌, ==_iff, ltb, some, List, [], ◌∷◌, any,
  filter, arith, Option-cases, inl, inr,
}
use get_exception.Base.Table.{update_many, first_by}
use get_exception.SourceMaps.Tables.{Upload, State}
use get_exception.SourceMaps.Validate.{
  is_claimable, claimed, claim_upload, is_owned, finish_validation,
}

taken :
    (job : Upload) (mine token : Ident) (now : ℕ) (uploads : List Upload)
    → job.lease_token ≡ some mine
    → mine ≢ token
    → any (is_owned job) (update_many (λ v. v.id == job.id) (claimed token now) uploads) ≡ false
taken job mine token now [] e ne = refl
taken job mine token now (u ∷ uploads) e ne =
    ground (arith, e, ne, ==_iff mine token, taken job mine token now uploads e ne)

-- Once a worker has claimed an upload under its token, the end of an earlier validation of the same
-- upload changes nothing, whatever its outcome.
pub finish_validation_fenced :
    (live locked : Ident → Bool) (mine token : Ident) (now : ℕ) (valid : Bool) (job u : Upload)
    (s : State)
    → job.lease_token ≡ some mine
    → mine ≢ token
    → (claim_upload live locked token now s).1 ≡ some u
    → u.id ≡ job.id
    → finish_validation valid job (claim_upload live locked token now s).0
      ≡ (claim_upload live locked token now s).0
unfolding claim_upload finish_validation
finish_validation_fenced live locked mine token now valid job u s e ne took same =
    elim (Option-cases (
      first_by (λ u v. ltb u.created_at v.created_at)
        (filter (is_claimable live locked now) s.uploads))) [
          | inl n ↦ absurd (ground (arith, rw n at took))
          | inr (v, n) ↦
              let took' : some (claimed token now v) ≡ some u = rw n at took in
              let id : v.id ≡ job.id = ground (arith, took', same) in
              rw (n, id) (ground (arith, taken job mine token now s.uploads e ne))
        ]
