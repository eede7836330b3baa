-- ===== src/Web/Auth/RateLimit/Attempts.antt =====
-- How many attempts a bucket lets through.
use get_exception.Base.{
  Ident, ℕ, ◌+◌, ◌-◌, ◌*◌, ◌/◌, ◌≤◌, ◌≡◌, Bool, ◌||◌, ◌&&◌, ◌==◌, ==_iff, List, [], ◌∷◌,
  if◌then◌else◌, arith, String,
}
use get_exception.Web.AuthError.{Result, succeeds}
use get_exception.Web.Workspace.{RateBucket, Db}
use get_exception.Web.Auth.{Primitives}
use get_exception.Web.Auth.RateLimit.{
  window_time, hit, hits_of, hit_both, max_hits, rate_limit, address_id, account_id,
}

-- An upsert counts its own bucket, and no other.
hits_of-hit :
    (id other : Ident) (expires : ℕ) (bs : List RateBucket)
    → hits_of other (hit id expires bs) ≡ hits_of other bs + (if id == other then 1 else 0)
unfolding hit
hits_of-hit id other expires [] = ground arith
hits_of-hit id other expires (b ∷ bs) =
    ground
      (arith, ==_iff b.id id, ==_iff b.id other, ==_iff id other, hits_of-hit id other expires bs)

-- One attempt: its address, its account, the kind of action and the time.
pub record Attempt : Type 0 where
  pub ip : List ℕ
  pub principal : List ℕ
  pub action : String
  pub now : ℕ

module _ (prim : Primitives) where
  abbrev pub counts_for : Ident → Attempt → Bool
  counts_for id a =
      address_id prim a.action a.ip a.now == id
      || (account_id prim a.action a.principal a.now == id)

  abbrev pub attempt : Attempt → Db → Db × Result (Unit {0})
  unfolding rate_limit
  attempt a = rate_limit prim a.ip a.principal a.action a.now

  -- The attempts of a schedule that a bucket is charged for and that are let through.
  unfoldable pub let_through : Ident → List Attempt → Db → ℕ
  let_through id [] db = 0
  let_through id (a ∷ rest) db =
      (if counts_for id a && succeeds (attempt a db).1 then 1 else 0)
      + let_through id rest (attempt a db).0

  attempt_lem :
      (id : Ident) (a : Attempt) (db : Db)
      → (if counts_for id a && succeeds (attempt a db).1 then 1 else 0)
          + (max_hits - hits_of id (attempt a db).0.rate_buckets)
        ≤ max_hits - hits_of id db.rate_buckets
  unfolding rate_limit hit_both
  attempt_lem id a db =
      let first_id = address_id prim a.action a.ip a.now in
      let second_id = account_id prim a.action a.principal a.now in
      let expires = (a.now / window_time + 2) * window_time in
      let first = hit first_id expires db.rate_buckets in
      ground (
        arith,
        hits_of-hit first_id first_id expires db.rate_buckets,
        hits_of-hit first_id id expires db.rate_buckets,
        hits_of-hit second_id second_id expires first,
        hits_of-hit second_id id expires first,
        ==_iff first_id id,
        ==_iff second_id id,
        ==_iff first_id first_id,
        ==_iff second_id second_id,
      )

  -- Of all attempts that are charged to one bucket, whatever other attempts come between them and
  -- whenever they come, at most ten are let through, less those already counted.
  pub let_through-le :
      (id : Ident) (attempts : List Attempt) (db : Db)
      → let_through id attempts db ≤ max_hits - hits_of id db.rate_buckets
  unfolding let_through
  let_through-le id [] db = omega arith
  let_through-le id (a ∷ rest) db =
      omega (arith, attempt_lem id a db, let_through-le id rest (attempt a db).0)
