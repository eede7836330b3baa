-- ===== src/Ingest/BucketLimiter/Credit.antt =====
-- The credit of a bucket over time, as numbers.
use get_exception.Base.{
  ℕ, ◌+◌, ◌-◌, ◌*◌, ◌≤◌, ◌≡◌, refl, ap, Option, none, some, arith, Bool-cases, inl, inr, ltb,
  if◌then◌else◌, leb,
}
use get_exception.Ingest.BucketLimiter.{Bucket, idle_limit, is_recent, bucket_or, refill, charge}
use get_exception.Base.Dict.{kept}

-- The most credit that a bucket, or none, stands for at a time, refilled at `rate` up to `burst`.
abbrev pub credit_at : ℕ → ℕ → ℕ → Option Bucket → ℕ
credit_at rate burst now o = refill rate burst now (bucket_or burst now o)

mul_mono : (a b r : ℕ) → a ≤ b → a * r ≤ b * r
mul_mono a b r h = grind arith

pub later :
    (rate burst t now : ℕ) (o : Option Bucket)
    → t ≤ now
    → credit_at rate burst now o ≤ credit_at rate burst t o + (now - t) * rate
later rate burst t now none h = omega arith
later rate burst t now (some b) h =
    omega (arith, mul_mono (now - b.at) ((t - b.at) + (now - t)) rate (omega arith))

pub refill_mono :
    (r r' b b' now : ℕ) (o : Option Bucket)
    → r ≤ r'
    → b ≤ b'
    → refill r b now (bucket_or b now o) ≤ refill r' b' now (bucket_or b' now o)
refill_mono r r' b b' now none h g = omega arith
refill_mono r r' b b' now (some x) h g = grind arith

-- A bucket that a sweep drops was full again.
pub swept :
    (rate burst now : ℕ) (o : Option Bucket)
    → burst * 1000 ≤ idle_limit * rate
    → credit_at rate burst now (kept (is_recent now) o) ≡ credit_at rate burst now o
swept rate burst now none h = refl
swept rate burst now (some b) h = elim (Bool-cases (ltb idle_limit (now - b.at))) [
  | inl old ↦ rw old (omega (arith, mul_mono idle_limit (now - b.at) rate (ground arith)))
  | inr recent ↦ rw recent refl
]

-- What a call leaves in its bucket, with what it paid.
pub pay :
    (rate burst now before : ℕ)
    → credit_at rate burst now (some (record { credit = charge before; at = now }))
        + (if leb 1000 before then 1000 else 0)
      ≤ before
pay rate burst now before = ground arith

pub regroup : (rate a b c : ℕ) → a ≤ b → b ≤ c → (b - a) * rate + (c - b) * rate ≡ (c - a) * rate
regroup rate a b c h g =
    let same : (b - a) + (c - b) ≡ c - a = omega arith in
    omega (arith, ap (λ (t : ℕ). t * rate) same)
