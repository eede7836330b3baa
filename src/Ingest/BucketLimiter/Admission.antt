-- ===== src/Ingest/BucketLimiter/Admission.antt =====
-- How many calls of one key a schedule can admit.
use get_exception.Base.{
  ℕ, ◌+◌, ◌-◌, ◌*◌, ◌≤◌, ◌≡◌, ◌≢◌, length, ◌||◌, Bool, ◌&&◌, List, [], ◌∷◌, arith, All, Eq, ltb,
  ◌===◌, if◌then◌else◌, leb,
}
use get_exception.Base.Dict.{get, has, get-set, get-keep}
use get_exception.Ingest.BucketLimiter.{
  Limiter, Call, capacity, idle_limit, is_recent, bucket_or, refill, charge, sweep, spend, take,
}
use get_exception.Ingest.BucketLimiter.Credit.{credit_at, later, refill_mono, swept, pay, regroup}
use get_exception.Ingest.BucketLimiter.Size.{IsBounded, take-IsBounded}

-- The clock of a schedule runs from `start` to `finish` and never back.
abbrev pub InOrder : {K : Type 0} → ℕ → List (Call K) → ℕ → Type 0
InOrder start [] finish = start ≤ finish
InOrder start (c ∷ cs) finish = (start ≤ c.now) × InOrder c.now cs finish

InOrder-le :
    {K : Type 0} (start : ℕ) (cs : List (Call K)) (finish : ℕ)
    → InOrder start cs finish
    → start ≤ finish
InOrder-le start [] finish h = h
InOrder-le start (c ∷ cs) finish h = omega (arith, InOrder-le c.now cs finish h.1)

-- The limits that a call for `k` names.
abbrev pub Within : {K : Type 0} → K → ℕ → ℕ → Call K → Type 0
Within k rate burst c = c.key ≡ k → (c.rate ≤ rate) × (c.burst ≤ burst)

module _ {K : Type 0} ⦃e : Eq K⦄ where
  -- The credit of `k` at a time, if it is refilled at `rate` up to `burst`.
  pub available : K → ℕ → ℕ → Limiter K → ℕ → ℕ
  available k rate burst l now = credit_at rate burst now (get l.buckets k)

  available-sweep :
      (k : K) (rate burst : ℕ) (l : Limiter K) (now : ℕ)
      → burst * 1000 ≤ idle_limit * rate
      → IsBounded l
      → available k rate burst (sweep l now) now ≡ available k rate burst l now
  unfolding available sweep
  available-sweep k rate burst l now h v = ground (
    arith,
    get-keep (is_recent now) l.buckets k v.distinct,
    swept rate burst now (get l.buckets k) h,
  )

  -- The credit that a call costs `k`.
  unfoldable pub cost : K → Call K → Bool → ℕ
  cost k c allowed = if (c.key === k) && allowed then 1000 else 0

  available-spend :
      (k : K) (rate burst : ℕ) (l : Limiter K) (c : Call K)
      → Within k rate burst c
      → available k rate burst (spend l c).0 c.now + cost k c (spend l c).1
        ≤ available k rate burst l c.now
  unfolding available spend cost
  available-spend k rate burst l c h =
      let o = get l.buckets c.key in
      let before = refill c.rate c.burst c.now (bucket_or c.burst c.now o) in
      ground (
        arith,
        e.beq_iff c.key k,
        get-set l.buckets c.key k (record { credit = charge before; at = c.now }),
        pay rate burst c.now before,
        refill_mono c.rate rate c.burst burst c.now o,
        h,
      )

  pub available-take :
      (k : K) (rate burst : ℕ) (l : Limiter K) (c : Call K)
      → burst * 1000 ≤ idle_limit * rate
      → Within k rate burst c
      → IsBounded l
      → available k rate burst (take l c).0 c.now + cost k c (take l c).1
        ≤ available k rate burst l c.now
  unfolding take cost
  available-take k rate burst l c h within v = ground (
    arith,
    available-sweep k rate burst l c.now h v,
    available-spend k rate burst (sweep l c.now) c within,
  )

  -- A call for one key leaves the credit of every other key as it was, also when it sweeps.
  pub available-take_ne :
      (k : K) (rate burst : ℕ) (l : Limiter K) (c : Call K)
      → burst * 1000 ≤ idle_limit * rate
      → c.key ≢ k
      → IsBounded l
      → available k rate burst (take l c).0 c.now ≡ available k rate burst l c.now
  unfolding take spend available
  available-take_ne k rate burst l c h ne v =
      let before =
        refill c.rate c.burst c.now (bucket_or c.burst c.now (get (sweep l c.now).buckets c.key)) in
      ground (
        arith,
        e.beq_iff c.key k,
        available-sweep k rate burst l c.now h v,
        get-set (sweep l c.now).buckets c.key k (record { credit = charge before; at = c.now }),
      )

  -- A call is admitted exactly when its key has a bucket, or room for one, after the sweep, and the
  -- credit for a request.
  pub take-admits :
      (l : Limiter K) (c : Call K)
      → c.burst * 1000 ≤ idle_limit * c.rate
      → IsBounded l
      → (take l c).1 ≡ (
          (has (sweep l c.now).buckets c.key || ltb (length (sweep l c.now).buckets) capacity)
          && leb 1000 (available c.key c.rate c.burst l c.now))
  unfolding take spend available
  take-admits l c h v = ground (arith, available-sweep c.key c.rate c.burst l c.now h v)

  pub available_later :
      (k : K) (rate burst t now : ℕ) (l : Limiter K)
      → t ≤ now
      → available k rate burst l now ≤ available k rate burst l t + (now - t) * rate
  unfolding available
  available_later k rate burst t now l h = later rate burst t now (get l.buckets k) h

  pub available-le :
      (k : K) (rate burst : ℕ) (l : Limiter K) (now : ℕ)
      → available k rate burst l now ≤ 1000 * burst
  unfolding available
  available-le k rate burst l now = omega arith

  -- The calls of a schedule in turn: how many of those for `k` are admitted.
  unfoldable pub admitted : K → Limiter K → List (Call K) → ℕ
  admitted k l [] = 0
  admitted k l (c ∷ cs) =
      (if (c.key === k) && (take l c).1 then 1 else 0) + admitted k (take l c).0 cs

  admitted-le_available :
      (k : K) (rate burst : ℕ) (start finish : ℕ) (l : Limiter K) (cs : List (Call K))
      → burst * 1000 ≤ idle_limit * rate
      → InOrder start cs finish
      → All (Within k rate burst) cs
      → IsBounded l
      → 1000 * admitted k l cs ≤ available k rate burst l start + (finish - start) * rate
  unfolding admitted cost
  admitted-le_available k rate burst start finish l [] h order within v = omega arith
  admitted-le_available k rate burst start finish l (c ∷ cs) h order within v =
      let l' = (take l c).0 in
      ground (
        arith,
        available-take k rate burst l c h within.0 v,
        available_later k rate burst start c.now l order.0,
        regroup rate start c.now finish order.0 (InOrder-le c.now cs finish order.1),
        admitted-le_available k rate burst c.now finish l' cs h order.1 within.1
            (take-IsBounded l c v),
      )

  -- Let `burst * 1000` be at most `60000 * rate`, so that a bucket is full again before a sweep drops
  -- it as idle, let the limiter have one bucket for a key and no more than its capacity, and let the
  -- calls for a key have at most this rate and burst. Then from `start` to `finish` these calls, in
  -- any interleaving with those for other keys, are admitted at most `burst` times and once more for
  -- each `1000 / rate` milliseconds.
  pub admitted-le :
      (k : K) (rate burst : ℕ) (start finish : ℕ) (l : Limiter K) (cs : List (Call K))
      → burst * 1000 ≤ idle_limit * rate
      → InOrder start cs finish
      → All (Within k rate burst) cs
      → IsBounded l
      → 1000 * admitted k l cs ≤ 1000 * burst + (finish - start) * rate
  admitted-le k rate burst start finish l cs h order within v = omega (
    arith,
    admitted-le_available k rate burst start finish l cs h order within v,
    available-le k rate burst l start,
  )
