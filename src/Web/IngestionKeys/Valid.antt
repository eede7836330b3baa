-- ===== src/Web/IngestionKeys/Valid.antt =====
-- How many keys of a project are valid.
use get_exception.Base.{
  Ident, ℕ, ◌+◌, ◌≤◌, ◌≡◌, refl, Bool, true, false, none, some, List, [], ◌∷◌, ◌++◌, Option-cases,
  inl, inr, if◌then◌else◌, arith, ==_iff,
}
use get_exception.Base.Table.{find_first, count, update_many}
use get_exception.Web.AuthError.{ok}
use get_exception.Web.AuthError.After.{After, After-ok, Result-cases}
use get_exception.Web.Workspace.{Db, Current, IngestionKey}
use get_exception.Web.Projects.{is_live_project}
use get_exception.Web.IngestionKeys.{
  max_keys, grace_time, is_unrevoked, is_valid, retire, rotate_key,
}

count-append :
    (p : IngestionKey → Bool) (ks : List IngestionKey) (k : IngestionKey)
    → count p (ks ++ (k ∷ [])) ≡ count p ks + (if p k then 1 else 0)
count-append p [] k = ground arith
count-append p (j ∷ ks) k = ground (arith, count-append p ks k)

revoked :
    (project now later : ℕ) (ks : List IngestionKey)
    → count
        (is_valid project later)
        (update_many (is_unrevoked project) (λ k. record k { revoked_at = some now }) ks)
      ≡ 0
revoked project now later [] = refl
revoked project now later (k ∷ ks) = ground (arith, revoked project now later ks)

-- Keys with an end set are valid until then at most, and no others become valid.
ended :
    (project now later : ℕ) (ks : List IngestionKey)
    → now ≤ later
    → count (is_valid project later) (
        update_many
          (is_valid project (now + grace_time))
          (λ k. record k { expires_at = some (now + grace_time) })
          ks)
      ≤ count (is_valid project now) ks
ended project now later [] h = omega arith
ended project now later (k ∷ ks) h = ground (arith, ended project now later ks h)

all_ended :
    (project now later : ℕ) (ks : List IngestionKey)
    → now + grace_time ≤ later
    → count (is_valid project later) (
        update_many
          (is_valid project (now + grace_time))
          (λ k. record k { expires_at = some (now + grace_time) })
          ks)
      ≡ 0
all_ended project now later [] h = refl
all_ended project now later (k ∷ ks) h = ground (arith, all_ended project now later ks h)

retire-After :
    (immediately : Bool) (project now later : ℕ) (ks : List IngestionKey)
    → now ≤ later
    → After
        (λ kept. count (is_valid project later) kept + 1 ≤ max_keys)
        (retire immediately project now ks)
unfolding retire
retire-After true project now later ks h = omega (arith, revoked project now later ks)
retire-After false project now later ks h = ground (arith, ended project now later ks h)

-- The keys that a rotation leaves valid at a later time: the new one only, if the others are revoked
-- at once or a day has gone by.
abbrev pub Only : Bool → ℕ → ℕ → Type 0
Only true now later = Unit {0}
Only false now later = now + grace_time ≤ later

retire-none :
    (immediately : Bool) (project now later : ℕ) (ks : List IngestionKey)
    → Only immediately now later
    → After (λ kept. count (is_valid project later) kept ≡ 0) (retire immediately project now ks)
unfolding retire
retire-none true project now later ks h = revoked project now later ks
retire-none false project now later ks h = ground (arith, all_ended project now later ks h)

rotate_key-After :
    (immediately : Bool) (project id hash now later : ℕ) (db : Db) (current : Current)
    → now ≤ later
    → After
        (λ r. count (is_valid project later) r.0.ingestion_keys ≤ max_keys)
        (rotate_key immediately project id hash now db current)
unfolding rotate_key
rotate_key-After immediately project id hash now later db current h =
    elim (Option-cases
      (find_first (is_live_project project current.member.organization_id) db.projects)) [
        | inl missing ↦ rw missing tt
        | inr (p, live) ↦
            rw live (elim (Result-cases (retire immediately project now db.ingestion_keys)) [
              | inl (e, failed) ↦ rw failed tt
              | inr (kept, done) ↦
                  let new : IngestionKey = record {
                    id = id;
                    project_id = project;
                    key_hash = hash;
                    expires_at = none;
                    revoked_at = none;
                  } in
                  let few =
                    After-ok (λ ks. count (is_valid project later) ks + 1 ≤ max_keys) _ _
                      (retire-After immediately project now later db.ingestion_keys h) done in
                  rw done (ground (arith, few, count-append (is_valid project later) kept new))
            ])
      ]

-- From a rotation on, until the next change, a project has at most ten valid keys.
pub rotate_key_bound :
    (immediately : Bool) (project id hash now later : ℕ) (db db' : Db) (current : Current)
    (key : Ident)
    → now ≤ later
    → rotate_key immediately project id hash now db current ≡ ok (db', key)
    → count (is_valid project later) db'.ingestion_keys ≤ max_keys
rotate_key_bound immediately project id hash now later db db' current key h e =
    After-ok (λ r. count (is_valid project later) r.0.ingestion_keys ≤ max_keys) _ _
      (rotate_key-After immediately project id hash now later db current h) e

rotate_key-Only :
    (immediately : Bool) (project id hash now later : ℕ) (db : Db) (current : Current)
    → Only immediately now later
    → After
        (λ r. count (is_valid project later) r.0.ingestion_keys ≡ 1)
        (rotate_key immediately project id hash now db current)
unfolding rotate_key
rotate_key-Only immediately project id hash now later db current h =
    elim (Option-cases
      (find_first (is_live_project project current.member.organization_id) db.projects)) [
        | inl missing ↦ rw missing tt
        | inr (p, live) ↦
            rw live (elim (Result-cases (retire immediately project now db.ingestion_keys)) [
              | inl (e, failed) ↦ rw failed tt
              | inr (kept, done) ↦
                  let new : IngestionKey = record {
                    id = id;
                    project_id = project;
                    key_hash = hash;
                    expires_at = none;
                    revoked_at = none;
                  } in
                  let none_left =
                    After-ok (λ ks. count (is_valid project later) ks ≡ 0) _ _
                      (retire-none immediately project now later db.ingestion_keys h) done in
                  rw done (
                    ground (
                      arith,
                      none_left,
                      ==_iff project project,
                      count-append (is_valid project later) kept new,
                    ))
            ])
      ]

-- After a rotation that revokes at once the new key is the only valid one, and after any other
-- rotation it is so from a day later on.
pub rotate_key_alone :
    (immediately : Bool) (project id hash now later : ℕ) (db db' : Db) (current : Current)
    (key : Ident)
    → Only immediately now later
    → rotate_key immediately project id hash now db current ≡ ok (db', key)
    → count (is_valid project later) db'.ingestion_keys ≡ 1
rotate_key_alone immediately project id hash now later db db' current key h e =
    After-ok (λ r. count (is_valid project later) r.0.ingestion_keys ≡ 1) _ _
      (rotate_key-Only immediately project id hash now later db current h) e
