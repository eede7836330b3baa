-- ===== src/Ingest/BucketLimiter/Size.antt =====
-- The map of buckets stays a map, and never outgrows its capacity.
use get_exception.Base.{ℕ, ◌≤◌, ◌≡◌, false, arith, length, Eq, leb, ◌&&◌, not}
use get_exception.Base.Dict.{
  Distinct, get, has, length-set-le, length-set-has, length-keep-le, set-Distinct, keep-Distinct,
}
use get_exception.Ingest.BucketLimiter.{
  Limiter, Call, Bucket, capacity, init, is_recent, refill, bucket_or, charge, sweep, spend, take,
}

module _ {K : Type 0} ⦃e : Eq K⦄ where
  pub record IsBounded (l : Limiter K) : Type 0 where
    pub distinct : Distinct l.buckets
    pub fits : length l.buckets ≤ capacity

  pub sweep-IsBounded : (l : Limiter K) (now : ℕ) → IsBounded l → IsBounded (sweep l now)
  unfolding sweep
  sweep-IsBounded l now v = ground (
    arith,
    keep-Distinct (is_recent now) l.buckets v.distinct,
    length-keep-le (is_recent now) l.buckets,
  )

  spend-Distinct : (l : Limiter K) (c : Call K) → IsBounded l → Distinct (spend l c).0.buckets
  unfolding spend
  spend-Distinct l c v = set-Distinct l.buckets c.key _ v.distinct

  length-spend-le :
      (l : Limiter K) (c : Call K)
      → (leb capacity (length l.buckets) && not (has l.buckets c.key)) ≡ false
      → IsBounded l
      → length (spend l c).0.buckets ≤ capacity
  unfolding spend
  length-spend-le l c h v =
      let b : Bucket = record {
        credit =
            charge (refill c.rate c.burst c.now (bucket_or c.burst c.now (get l.buckets c.key)));
        at = c.now;
      } in
      ground (arith, length-set-le l.buckets c.key b, length-set-has l.buckets c.key b)

  -- Every call, allowed or not, keeps one bucket for a key and at most `capacity` buckets.
  pub take-IsBounded : (l : Limiter K) (c : Call K) → IsBounded l → IsBounded (take l c).0
  unfolding take
  take-IsBounded l c v = ground (
    arith,
    sweep-IsBounded l c.now v,
    spend-Distinct (sweep l c.now) c,
    length-spend-le (sweep l c.now) c,
  )

pub init-IsBounded : (K : Type 0) ⦃e : Eq K⦄ → IsBounded (init K)
unfolding init
init-IsBounded K = record { distinct = tt; fits = omega arith }
