-- ===== src/Worker/Inbox/Invariant.antt =====
-- The rows of the queue in every state that the workers and the ingest service reach.
use get_exception.Base.{
  ℕ, ◌≤◌, ◌≡◌, Bool, true, false, not, refl, ◌≢◌, Option, none, some, List, [], ◌∷◌, arith, All,
  leb, ◌==◌, ◌&&◌, any, Bool-cases, inl, inr, if◌then◌else◌,
}
use get_exception.Base.Table.{first_by, All-update_many, All-update, All-append}
use get_exception.Base.Table.Keys.{
  In-filter, In-first_by, Keyed, All-update_key, Keyed-update, Keyed-update_many, Keyed-append,
}
use get_exception.Base.{Ident}
use get_exception.Worker.Inbox.{
  Row, Status, pending, processing, done, dead, discarded, max_attempts, claim, heartbeat,
  retry_job, settle, accept, new_row, is_owned, is_duplicate, same_token, is_processing,
  is_exhausted, bury, lease, grant, bury_exhausted, is_claimable, open_rows, precedes,
}

-- A lease is there exactly while a row is being processed.
abbrev pub LeaseFits : Status → Option Ident → Option ℕ → Type 0
LeaseFits pending none none = Unit {0}
LeaseFits pending _ _ = ⊥
LeaseFits processing (some t) (some u) = Unit {0}
LeaseFits processing _ _ = ⊥
LeaseFits done none none = Unit {0}
LeaseFits done _ _ = ⊥
LeaseFits dead none none = Unit {0}
LeaseFits dead _ _ = ⊥
LeaseFits discarded none none = Unit {0}
LeaseFits discarded _ _ = ⊥

-- A row that a job owns has a lease to extend.
extended :
    (st : Status) (t owner : Option Ident) (u : Option ℕ) (v : ℕ)
    → (same_token t owner && is_processing st) ≡ true
    → LeaseFits st t u
    → LeaseFits st t (some v)
extended processing (some t) owner u v e h = tt
extended processing none owner u v e h = h
extended _ t owner u v e h = absurd (ground arith)

given_back : (b : Bool) → LeaseFits (if b then dead else pending) none none
given_back true = tt
given_back false = tt

module _ {Payload : Type 0} where
  abbrev pub IsSound : Row Payload → Type 0
  IsSound r = (r.attempts ≤ max_attempts) × LeaseFits r.status r.lease_token r.lease_until

  bury-IsSound :
      (now : ℕ) (inbox : List (Row Payload))
      → All IsSound inbox
      → All IsSound (bury_exhausted now inbox)
  unfolding bury_exhausted
  bury-IsSound now inbox h =
      All-update_many IsSound (is_exhausted now) bury inbox h (λ r e s. (s.0, tt))

  heartbeat-IsSound :
      (job : Row Payload) (now : ℕ) (inbox : List (Row Payload))
      → All IsSound inbox
      → All IsSound (heartbeat job now inbox)
  unfolding heartbeat
  heartbeat-IsSound job now inbox h = All-update_many IsSound (is_owned job) _ inbox h λ r e s.
      (s.0, extended r.status r.lease_token job.lease_token r.lease_until _ (ground (arith, e)) s.1)

  retry_job-IsSound :
      (job : Row Payload) (now : ℕ) (inbox : List (Row Payload))
      → All IsSound inbox
      → All IsSound (retry_job job now inbox).0
  unfolding retry_job
  retry_job-IsSound job now inbox h =
      All-update_many IsSound (is_owned job) _ inbox h
        λ r e s. (s.0, given_back (leb max_attempts job.attempts))

  settle-IsSound :
      (job : Row Payload) (inbox : List (Row Payload))
      → All IsSound inbox
      → All IsSound (settle job inbox)
  unfolding settle
  settle-IsSound job inbox h =
      All-update IsSound (λ r. r.id == job.id) _ inbox h (λ r e s. (s.0, tt))

  accept-IsSound :
      (id project event : Ident) (payload : Payload) (now : ℕ) (inbox : List (Row Payload))
      → All IsSound inbox
      → All IsSound (accept (new_row id project event payload now) inbox)
  unfolding accept
  accept-IsSound id project event payload now inbox h =
      let new : Row Payload = new_row id project event payload now in
      elim (Bool-cases (any (is_duplicate new) inbox)) [
        | inl e ↦ rw e h
        | inr e ↦ rw e (All-append IsSound inbox (new ∷ []) h ((omega arith, tt), tt))
      ]

  lease-IsSound :
      (live : Ident → Bool) (now : ℕ) (token : Ident) (r : Row Payload)
      → is_claimable live now r ≡ true
      → IsSound (lease now token r)
  unfolding lease is_claimable
  lease-IsSound live now token r e = (ground arith, tt)

  grant-IsSound :
      (live locked : Ident → Bool) (now : ℕ) (token : Ident) (rows : List (Row Payload))
      (o : Option (Row Payload))
      → first_by precedes (open_rows live locked now rows) ≡ o
      → Keyed (λ r. r.id) rows
      → All IsSound rows
      → All IsSound (grant now token rows o).0
  unfolding grant open_rows
  grant-IsSound live locked now token rows none e k h = h
  grant-IsSound live locked now token rows (some r) e k h =
      let (m, c) =
        In-filter (λ r. is_claimable live now r && not (locked r.id)) r rows
          (In-first_by precedes (open_rows live locked now rows) r e) in
      All-update_key (λ r. r.id) IsSound (lease now token) r rows k m
        (lease-IsSound live now token r (ground (arith, c))) h

  -- One write to the queue, by a worker or by the ingest service. A new row has a new identifier.
  pub data Step (inbox : List (Row Payload)) : List (Row Payload) → Type 0 where
    claims :
        (live locked : Ident → Bool) (now : ℕ) (token : Ident)
        → Step inbox (claim live locked now token inbox).0
    beats : (job : Row Payload) (now : ℕ) → Step inbox (heartbeat job now inbox)
    retries : (job : Row Payload) (now : ℕ) → Step inbox (retry_job job now inbox).0
    settles : (job : Row Payload) → Step inbox (settle job inbox)
    accepts :
        (id project event : Ident) (payload : Payload) (now : ℕ)
        → All (λ r. r.id ≢ id) inbox
        → Step inbox (accept (new_row id project event payload now) inbox)

  pub data Reach : List (Row Payload) → Type 0 where
    empty : Reach []
    next : {inbox after : List (Row Payload)} → Reach inbox → Step inbox after → Reach after

  pub record IsConsistent (inbox : List (Row Payload)) : Type 0 where
    pub sound : All IsSound inbox
    pub keyed : Keyed (λ r. r.id) inbox

  grant-Keyed :
      (now : ℕ) (token : Ident) (rows : List (Row Payload)) (o : Option (Row Payload))
      → Keyed (λ r. r.id) rows
      → Keyed (λ r. r.id) (grant now token rows o).0
  unfolding grant
  grant-Keyed now token rows none k = k
  grant-Keyed now token rows (some r) k =
      Keyed-update (λ r. r.id) (λ s. s.id == r.id) (lease now token) rows (λ s. refl) k

  accept-Keyed :
      (new : Row Payload) (inbox : List (Row Payload))
      → All (λ r. r.id ≢ new.id) inbox
      → Keyed (λ r. r.id) inbox
      → Keyed (λ r. r.id) (accept new inbox)
  unfolding accept
  accept-Keyed new inbox fresh k = elim (Bool-cases (any (is_duplicate new) inbox)) [
    | inl e ↦ rw e k
    | inr e ↦ rw e (Keyed-append (λ r. r.id) new inbox k fresh)
  ]

  -- Every write keeps the identifiers distinct, the attempts at five at most, and a lease on exactly
  -- the rows that are being processed.
  pub Step-IsConsistent :
      {inbox after : List (Row Payload)}
      → Step inbox after
      → IsConsistent inbox
      → IsConsistent after
  unfolding claim heartbeat retry_job settle bury_exhausted
  Step-IsConsistent {inbox} (claims live locked now token) v =
      let rows = bury_exhausted now inbox in
      let k : Keyed (λ r. r.id) rows =
        Keyed-update_many (λ r. r.id) (is_exhausted now) bury inbox (λ r. refl) v.keyed in
      let o = first_by precedes (open_rows live locked now rows) in
      record {
        sound = grant-IsSound live locked now token rows o refl k (bury-IsSound now inbox v.sound);
        keyed = grant-Keyed now token rows o k;
      }
  Step-IsConsistent {inbox} (beats job now) v = record {
    sound = heartbeat-IsSound job now inbox v.sound;
    keyed = Keyed-update_many (λ r. r.id) (is_owned job) _ inbox (λ r. refl) v.keyed;
  }
  Step-IsConsistent {inbox} (retries job now) v = record {
    sound = retry_job-IsSound job now inbox v.sound;
    keyed = Keyed-update_many (λ r. r.id) (is_owned job) _ inbox (λ r. refl) v.keyed;
  }
  Step-IsConsistent {inbox} (settles job) v = record {
    sound = settle-IsSound job inbox v.sound;
    keyed = Keyed-update (λ r. r.id) (λ r. r.id == job.id) _ inbox (λ r. refl) v.keyed;
  }
  Step-IsConsistent {inbox} (accepts id project event payload now fresh) v = record {
    sound = accept-IsSound id project event payload now inbox v.sound;
    keyed = accept-Keyed (new_row id project event payload now) inbox fresh v.keyed;
  }

  Reach-IsConsistent : {inbox : List (Row Payload)} → Reach inbox → IsConsistent inbox
  Reach-IsConsistent empty = record { sound = tt; keyed = tt }
  Reach-IsConsistent (next r st) = Step-IsConsistent st (Reach-IsConsistent r)
