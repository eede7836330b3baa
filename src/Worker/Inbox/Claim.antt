-- ===== src/Worker/Inbox/Claim.antt =====
-- Which row a claim takes, and when it takes one.
use get_exception.Base.{
  Ident, ℕ, ◌+◌, ◌≤◌, ◌<◌, ◌≡◌, refl, sym, subst, ◌⊎◌, inl, inr, Bool, true, false, not, ◌&&◌, ◌||◌,
  Option, none, some, some-injective, List, [], ◌∷◌, arith, tests, ltb→lt, ◌==◌, ltb, leb,
  Bool-cases,
}
use get_exception.Base.Table.{first_by, earliest}
use get_exception.Base.Table.Keys.{In, All-In, In-filter, filter-In, In-first_by}
use get_exception.Worker.Inbox.{
  Row, Status, pending, processing, done, dead, discarded, is_live, is_before, is_pending,
  is_processing, claim, grant, lease, bury_exhausted, bury, is_exhausted, is_claimable, open_rows,
  precedes,
}
use get_exception.Worker.Inbox.Order.{first_by-NoneBefore}

four :
    (a b c d : Bool)
    → ((a && b && c) && not d) ≡ true
    → (a ≡ true) × (b ≡ true) × (c ≡ true) × (d ≡ false)
four true true true false h = (refl, refl, refl, refl)
four true true true true h = ground (arith, h)
four true true false d h = ground (arith, h)
four true false c d h = ground (arith, h)
four false b c d h = ground (arith, h)

abbrev Due : ℕ → Status → ℕ → Option ℕ → Type 0
Due now status next lease_until =
    ((status ≡ pending) × (next ≤ now))
    ⊎ ((status ≡ processing) × ((t : ℕ) × (lease_until ≡ some t) × (t < now)))

abbrev is_due_at : ℕ → Status → ℕ → Option ℕ → Bool
is_due_at now status next lease_until =
    (is_pending status && leb next now) || (is_processing status && is_before lease_until now)

is_due_at-Due :
    (now : ℕ) (status : Status) (next : ℕ) (lease_until : Option ℕ)
    → is_due_at now status next lease_until ≡ true
    → Due now status next lease_until
is_due_at-Due now pending next until h = inl (refl, grind (tests, h))
is_due_at-Due now processing next none h = ground (arith, h)
is_due_at-Due now processing next (some t) h = inr (refl, (t, refl, grind (tests, h)))
is_due_at-Due now done next until h = ground (arith, h)
is_due_at-Due now dead next until h = ground (arith, h)
is_due_at-Due now discarded next until h = ground (arith, h)

Due-is_due_at :
    (now : ℕ) (status : Status) (next : ℕ) (lease_until : Option ℕ)
    → Due now status next lease_until
    → is_due_at now status next lease_until ≡ true
Due-is_due_at now status next until (inl (s, n)) = rw s (grind (tests, n))
Due-is_due_at now status next until (inr (s, (t, u, l))) = rw (s, u) (grind (tests, l))

live_project :
    (live : Ident → Bool) (o : Option Ident)
    → is_live live o ≡ true
    → (p : Ident) × (o ≡ some p) × (live p ≡ true)
live_project live none h = ground (arith, h)
live_project live (some p) h = (p, refl, h)

no_later_than :
    (a b i j : ℕ) → (ltb b a || (b == a && ltb j i)) ≡ false → (a < b) ⊎ ((a ≡ b) × (i ≤ j))
no_later_than a b i j h = elim (Bool-cases (ltb a b)) [
  | inl e ↦ inl (ltb→lt a b e)
  | inr e ↦ inr (ground (arith, h, e), ground (arith, h, e))
]

module _ {Payload : Type 0} where
  -- The project of the row is there, the row has attempts left and no other transaction holds it, and
  -- it is due, or the lease of its last worker has run out.
  pub record IsAvailable (live locked : Ident → Bool) (now : ℕ) (r : Row Payload) : Type 0 where
    pub project : Ident
    pub of_project : r.project_id ≡ some project
    pub project_is_live : live project ≡ true
    pub attempts_left : r.attempts < 5
    pub is_free : locked r.id ≡ false
    pub is_due :
        ((r.status ≡ pending) × (r.next_attempt_at ≤ now))
        ⊎ ((r.status ≡ processing) × ((t : ℕ) × (r.lease_until ≡ some t) × (t < now)))

  -- `job` is the row under its new lease of a minute, with one attempt more.
  abbrev pub IsLeased : ℕ → Ident → Row Payload → Row Payload → Type 0
  IsLeased now token r job =
      (job.id ≡ r.id)
      × (job.project_id ≡ r.project_id)
      × (job.event_id ≡ r.event_id)
      × (job.payload ≡ r.payload)
      × (job.status ≡ processing)
      × (job.attempts ≡ r.attempts + 1)
      × (job.lease_token ≡ some token)
      × (job.lease_until ≡ some (now + 60000))

  -- The row was received before another, or with it and has an identifier that is no greater.
  abbrev pub IsNoLater : Row Payload → Row Payload → Type 0
  IsNoLater r s =
      (r.received_at < s.received_at) ⊎ ((r.received_at ≡ s.received_at) × (r.id ≤ s.id))

  module _ (live locked : Ident → Bool) (now : ℕ) where
    abbrev claimable : Row Payload → Bool
    claimable r = is_claimable live now r && not (locked r.id)

    IsAvailable-claimable : (r : Row Payload) → IsAvailable live locked now r → claimable r ≡ true
    unfolding is_claimable
    IsAvailable-claimable r h =
        let live_project : is_live live r.project_id ≡ true = rw h.of_project h.project_is_live in
        let few : ltb r.attempts 5 ≡ true = grind (tests, h.attempts_left) in
        rw (
          live_project,
          few,
          Due-is_due_at now r.status r.next_attempt_at r.lease_until h.is_due,
          h.is_free,
        )

    buried : (s : Row Payload) → claimable (bury s) ≡ false
    unfolding is_claimable bury
    buried s = ground arith

    claimable-IsAvailable : (r : Row Payload) → claimable r ≡ true → IsAvailable live locked now r
    unfolding is_claimable
    claimable-IsAvailable r h =
        let (l, a, d, f) =
          four (is_live live r.project_id) (ltb r.attempts 5)
            (is_due_at now r.status r.next_attempt_at r.lease_until) (locked r.id) h in
        let (p, q, k) = live_project live r.project_id l in
        record {
          project = p;
          of_project = q;
          project_is_live = k;
          attempts_left = grind (tests, a);
          is_free = f;
          is_due = is_due_at-Due now r.status r.next_attempt_at r.lease_until d;
        }

    bury-In :
        (r : Row Payload) (rows : List (Row Payload))
        → claimable r ≡ true
        → In r (bury_exhausted now rows)
        → In r rows
    unfolding bury_exhausted
    bury-In r [] c m = elim m [ ]
    bury-In r (s ∷ rows) c (inr m) = inr (bury-In r rows c m)
    bury-In r (s ∷ rows) c (inl e) = elim (Bool-cases (is_exhausted now s)) [
      | inl b ↦
          absurd (ground (arith, buried s, subst (λ t. claimable t ≡ true) (sym (rw b at e)) c))
      | inr b ↦ inl (rw b at e)
    ]

    In-bury :
        (r : Row Payload) (rows : List (Row Payload))
        → is_exhausted now r ≡ false
        → In r rows
        → In r (bury_exhausted now rows)
    unfolding bury_exhausted
    In-bury r [] h m = elim m [ ]
    In-bury r (s ∷ rows) h (inr m) = inr (In-bury r rows h m)
    In-bury r (s ∷ rows) h (inl e) =
        let fresh : is_exhausted now s ≡ false =
          subst (λ t. is_exhausted now t ≡ false) (sym e) h in
        inl (rw fresh e)

    IsAvailable-fresh :
        (r : Row Payload) → IsAvailable live locked now r → is_exhausted now r ≡ false
    unfolding is_exhausted
    IsAvailable-fresh r h = grind (tests, h.attempts_left)

    abbrev choice : List (Row Payload) → List (Row Payload)
    choice inbox = open_rows live locked now (bury_exhausted now inbox)

    choice-IsAvailable :
        (inbox : List (Row Payload)) (r : Row Payload)
        → In r (choice inbox)
        → In r inbox × IsAvailable live locked now r
    unfolding open_rows
    choice-IsAvailable inbox r m =
        let (n, c) = In-filter claimable r (bury_exhausted now inbox) m in
        (bury-In r inbox c n, claimable-IsAvailable r c)

    IsAvailable-choice :
        (inbox : List (Row Payload)) (r : Row Payload)
        → In r inbox
        → IsAvailable live locked now r
        → In r (choice inbox)
    unfolding open_rows
    IsAvailable-choice inbox r m h =
        filter-In claimable r (bury_exhausted now inbox) (In-bury r inbox (IsAvailable-fresh r h) m)
          (IsAvailable-claimable r h)

    grant-leased :
        (token : Ident) (rows : List (Row Payload)) (o : Option (Row Payload)) (job : Row Payload)
        → (grant now token rows o).1 ≡ some job
        → (r : Row Payload) × (o ≡ some r) × (lease now token r ≡ job)
    unfolding grant
    grant-leased token rows none job e = cc
    grant-leased token rows (some r) job e = (r, refl, some-injective _ _ e)

    lease-IsLeased :
        (token : Ident) (r job : Row Payload) → lease now token r ≡ job → IsLeased now token r job
    unfolding lease
    lease-IsLeased token r job e =
        subst (IsLeased now token r) e (refl, refl, refl, refl, refl, refl, refl, refl)

    -- A job is a row of the queue that could be claimed, under a new lease of a minute with the new
    -- token and with one attempt more: its project is live, fewer than five attempts were made, no
    -- other transaction holds it, and it was pending and due or its last lease had run out.
    pub claim-IsAvailable :
        (token : Ident) (inbox : List (Row Payload)) (job : Row Payload)
        → (claim live locked now token inbox).1 ≡ some job
        → (r : Row Payload) × In r inbox × IsAvailable live locked now r × IsLeased now token r job
    unfolding claim
    claim-IsAvailable token inbox job e =
        let (r, f, l) = grant-leased token (bury_exhausted now inbox) _ job e in
        let (m, h) = choice-IsAvailable inbox r (In-first_by precedes (choice inbox) r f) in
        (r, m, h, lease-IsLeased token r job l)

    first_given :
        (s : Row Payload) (rows : List (Row Payload))
        → In s rows
        → (r : Row Payload) × (first_by precedes rows ≡ some r)
    first_given s [] m = elim m [ ]
    first_given s (t ∷ rows) m = (earliest precedes t (first_by precedes rows), refl)

    no_later : (r s : Row Payload) → precedes s r ≡ false → IsNoLater r s
    no_later r s h = no_later_than r.received_at s.received_at r.id s.id h

    -- Whenever a row of the queue can be claimed there is a job, and it is no later than that row: it
    -- was received before it, or at the same time with an identifier that is no greater.
    pub claim-serves :
        (token : Ident) (inbox : List (Row Payload)) (s : Row Payload)
        → In s inbox
        → IsAvailable live locked now s
        → (job : Row Payload) × ((claim live locked now token inbox).1 ≡ some job) × IsNoLater job s
    unfolding claim grant lease
    claim-serves token inbox s m h =
        let n = IsAvailable-choice inbox s m h in
        let (r, f) = first_given s (choice inbox) n in
        let first =
          All-In (λ t. precedes t r ≡ false) s (choice inbox)
            (first_by-NoneBefore (choice inbox) r f) n in
        (lease now token r, rw f refl, no_later r s first)
