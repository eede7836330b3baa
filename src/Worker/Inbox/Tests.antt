-- ===== src/Worker/Inbox/Tests.antt =====
-- Runs of the queue, and the theorems about it at concrete rows.
use get_exception.Base.{ℕ, ◌≡◌, ◌≢◌, refl, true, false, some, none, List, [], ◌∷◌, arith, Bool, All}
use get_exception.Base.{Ident}
use get_exception.Worker.Inbox.{Row, claim, lease, new_row, is_held, is_exhausted}
use get_exception.Worker.Inbox.Invariant.{claims, IsConsistent, Step-IsConsistent}
use get_exception.Worker.Inbox.Order.{claim-not-exhausted}
use get_exception.Base.{inl}
use get_exception.Base.Table.Keys.{In}
use get_exception.Worker.Inbox.Claim.{
  IsAvailable, IsLeased, IsNoLater, claim-IsAvailable, claim-serves,
}
use get_exception.Worker.Inbox.Fence.{claim-fences}

abbrev pub always : Ident → Bool
always p = true

abbrev pub never : Ident → Bool
never p = false

abbrev pub late_row : Row ℕ
late_row = new_row 1 7 70 100 2000

abbrev pub early_row : Row ℕ
early_row = new_row 2 7 71 200 1000

abbrev pub queue : List (Row ℕ)
queue = late_row ∷ early_row ∷ []

early_first : (claim always never 5000 900 queue).1 ≡ some (lease 5000 900 early_row)
unfolding claim
early_first = refl

queue-IsConsistent : IsConsistent queue
queue-IsConsistent = record { sound = omega arith; keyed = omega arith }

Step-IsConsistent_example : IsConsistent (claim always never 5000 900 queue).0
Step-IsConsistent_example =
    Step-IsConsistent {inbox = queue} (claims always never 5000 900) queue-IsConsistent

claim-IsAvailable_example :
    (r : Row ℕ) × In r queue
    × IsAvailable always never 5000 r
    × IsLeased 5000 900 r (lease 5000 900 early_row)
claim-IsAvailable_example =
    claim-IsAvailable always never 5000 900 queue (lease 5000 900 early_row) early_first

late_row-IsAvailable : IsAvailable always never 5000 late_row
late_row-IsAvailable = record {
  project = 7;
  of_project = refl;
  project_is_live = refl;
  attempts_left = omega arith;
  is_free = refl;
  is_due = inl (refl, omega arith);
}

claim-serves_example :
    (job : Row ℕ) × ((claim always never 5000 900 queue).1 ≡ some job) × IsNoLater job late_row
claim-serves_example =
    claim-serves always never 5000 900 queue late_row (inl refl) late_row-IsAvailable

nothing_to_claim : (claim always never 500 900 queue).1 ≡ none
unfolding claim
nothing_to_claim = refl

claim_fresh : All (λ r. is_exhausted 5000 r ≡ false) (claim always never 5000 900 queue).0
claim_fresh = claim-not-exhausted always never 5000 900 queue

-- The worker of the first lease, and the row a minute and a half later.
abbrev pub slow_job : Row ℕ
slow_job = lease 5000 900 early_row

abbrev pub leased_queue : List (Row ℕ)
leased_queue = slow_job ∷ []

pub claimed_again : (claim always never 95000 901 leased_queue).1 ≡ some (lease 95000 901 slow_job)
unfolding claim lease
claimed_again = refl

pub same_row : (lease 95000 901 slow_job).id ≡ slow_job.id
unfolding lease
same_row = refl

pub other_token : slow_job.lease_token ≢ some 901
unfolding lease
other_token e = ground arith

claim_ends_lease : is_held slow_job (claim always never 95000 901 leased_queue).0 ≡ false
claim_ends_lease =
    claim-fences always never 95000 901 leased_queue slow_job (lease 95000 901 slow_job)
      claimed_again same_row other_token (tt, tt)
