-- ===== src/Ingest/BucketLimiter.antt =====
-- apps/ingest/src/bucket-limiter.ts: token buckets for the installation, an IP and a project.
-- A credit is counted in thousandths, so that `elapsed * rate / 1000` is an integer; the clock is
-- an argument, in milliseconds. Subtraction stops at 0, as `Math.max(0, now - bucket.at)` does; the
-- other two differences are compared with a positive bound, which no negative one reaches.
pub mod Size
pub mod Credit
pub mod Admission
pub mod Tests
use get_exception.Base.{
  ℕ, ◌+◌, ◌-◌, ◌*◌, min, Bool, true, false, not, ◌&&◌, Option, none, some, List, [], ◌∷◌, length,
  Eq, ltb, leb, if◌then◌else◌,
}
use get_exception.Base.Dict.{Dict, get, has, set, keep}

pub record Bucket : Type 0 where
  pub credit : ℕ
  pub at : ℕ

pub record Limiter (K : Type 0) : Type 0 where
  pub buckets : Dict K Bucket
  pub last_sweep : ℕ

abbrev pub capacity : ℕ
capacity = 20000

abbrev pub idle_limit : ℕ
idle_limit = 60000

-- The arguments of one call, with the clock that it reads.
pub record Call (K : Type 0) : Type 0 where
  pub key : K
  pub rate : ℕ
  pub burst : ℕ
  pub now : ℕ

pub init : (K : Type 0) → Limiter K
init K = record { buckets = []; last_sweep = 0 }

-- A bucket that the sweep at `now` leaves.
abbrev pub is_recent : ℕ → Bucket → Bool
is_recent now b = not (ltb idle_limit (now - b.at))

-- `this.buckets.get(key) ?? { credit: burst, at: now }`
abbrev pub bucket_or : ℕ → ℕ → Option Bucket → Bucket
bucket_or burst now none = record { credit = burst * 1000; at = now }
bucket_or burst now (some b) = b

-- The credit of a bucket at `now`, before the call pays.
abbrev pub refill : ℕ → ℕ → ℕ → Bucket → ℕ
refill rate burst now b = min (burst * 1000) (b.credit + (now - b.at) * rate)

abbrev pub charge : ℕ → ℕ
charge credit = if leb 1000 credit then credit - 1000 else credit

module _ {K : Type 0} ⦃e : Eq K⦄ where
  pub sweep : Limiter K → ℕ → Limiter K
  sweep l now =
      if leb capacity (length l.buckets) && leb idle_limit (now - l.last_sweep)
      then record { buckets = keep (is_recent now) l.buckets; last_sweep = now }
      else l

  pub spend : Limiter K → Call K → Limiter K × Bool
  spend l c =
      let credit = refill c.rate c.burst c.now (bucket_or c.burst c.now (get l.buckets c.key)) in
      (
        record l { buckets = set l.buckets c.key (record { credit = charge credit; at = c.now }) },
        leb 1000 credit,
      )

  unfoldable pub take : Limiter K → Call K → Limiter K × Bool
  unfolding sweep spend
  take l c =
      let swept = sweep l c.now in
      if leb capacity (length swept.buckets) && not (has swept.buckets c.key)
      then (swept, false)
      else spend swept c
