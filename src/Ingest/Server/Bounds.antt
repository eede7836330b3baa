-- ===== src/Ingest/Server/Bounds.antt =====
-- How many requests of a project the server reads and stores.
use get_exception.Base.{
  Ident, ℕ, ◌+◌, ◌-◌, ◌*◌, ◌≤◌, ◌≢◌, Bool, true, false, ◌&&◌, ◌==◌, list_eq, Option, none, some,
  Option-cases, inl, inr, List, [], ◌∷◌, take, filter, arith, if◌then◌else◌,
}
use get_exception.Ingest.BucketLimiter
use get_exception.Ingest.BucketLimiter.{Limiter, Call, idle_limit}
use get_exception.Ingest.BucketLimiter.Size.{IsBounded, take-IsBounded}
use get_exception.Ingest.BucketLimiter.Credit.{regroup}
use get_exception.Ingest.BucketLimiter.Admission.{
  available, cost, available-take, available-take_ne, available_later, available-le,
}
use get_exception.Ingest.Http.{Text, match_path}
use get_exception.Ingest.Request.{
  LimitKey, of_project, limit_key_eq, Request, Config, Turn, stop, go, Ticket, is_config,
}
use get_exception.Ingest.Server.{
  admit, limited, located, check, checked, check_post, project_call, installation_call, ip_call,
}

-- What the limiter sees of a request: its arrival, or the answer to its query.
pub data Part : Type 0 where
  arrive : (ready : Bool) (r : Request) (now : ℕ) → Part
  query : (r : Request) (t : Ticket) (view : Option (List Config)) (now : ℕ) → Part

abbrev pub time : Part → ℕ
time (arrive ready r now) = now
time (query r t view now) = now

abbrev pub IsOrdered : ℕ → List Part → ℕ → Type 0
IsOrdered start [] finish = start ≤ finish
IsOrdered start (s ∷ parts) finish = (start ≤ time s) × IsOrdered (time s) parts finish

IsOrdered-le :
    (start : ℕ) (parts : List Part) (finish : ℕ) → IsOrdered start parts finish → start ≤ finish
IsOrdered-le start [] finish h = h
IsOrdered-le start (s ∷ parts) finish h = omega (arith, IsOrdered-le (time s) parts finish h.1)

abbrev passed : {A : Type 0} → Turn A → Bool
passed (stop r) = false
passed (go a) = true

module _ (trusted_proxy : Bool) (parse_url : Text → Option (Text × List Text))
    (hash ident : Text → Ident) where
  unfoldable pub limiter_after : Limiter LimitKey → Part → Limiter LimitKey
  limiter_after l (arrive ready r now) = (admit trusted_proxy parse_url hash ident ready r now l).0
  limiter_after l (query r t view now) = (check trusted_proxy parse_url hash ident r t view now l).0

  -- The handler goes on to the body of a request of the project.
  unfoldable pub reads_body : Ident → Limiter LimitKey → Part → Bool
  reads_body p l (arrive ready r now) = false
  reads_body p l (query r t view now) =
      (ident t.project == p) && passed (check trusted_proxy parse_url hash ident r t view now l).1

  unfoldable pub bodies_read : Ident → Limiter LimitKey → List Part → ℕ
  bodies_read p l [] = 0
  bodies_read p l (s ∷ parts) =
      (if reads_body p l s then 1 else 0) + bodies_read p (limiter_after l s) parts

  module _ (p : Ident) (now : ℕ) where
    abbrev left : Limiter LimitKey → ℕ
    left l = available (of_project p) 20 50 l now

    -- No credit of the project is spent.
    abbrev Saves : Limiter LimitKey → Limiter LimitKey → Type 0
    Saves l m = (left m ≤ left l) × IsBounded m

    limited-Saves :
        (r : Request) (project : Text) (query_keys : List Text) (l : Limiter LimitKey)
        → IsBounded l
        → Saves l (limited trusted_proxy parse_url hash ident r project query_keys now l).0
    unfolding limited ip_call
    limited-Saves r project query_keys l v =
        let first = installation_call trusted_proxy parse_url hash ident now in
        let second = ip_call trusted_proxy parse_url hash ident r now in
        let m = (BucketLimiter.take l first).0 in
        let first_ne : first.key ≢ of_project p = ground arith in
        let second_ne : second.key ≢ of_project p = ground arith in
        ground (
          arith,
          take-IsBounded l first v,
          take-IsBounded m second,
          available-take_ne (of_project p) 20 50 l first (omega arith) first_ne v,
          available-take_ne (of_project p) 20 50 m second (omega arith) second_ne,
        )

    located-Saves :
        (r : Request) (found : Option (Text × List Text)) (l : Limiter LimitKey)
        → IsBounded l
        → Saves l (located trusted_proxy parse_url hash ident r now l found).0
    located-Saves r none l v = (omega arith, v)
    located-Saves r (some (path, query_keys)) l v = elim (Option-cases (match_path path)) [
      | inl m ↦ rw m (omega arith, v)
      | inr (project, m) ↦ rw m (ground (arith, limited-Saves r project query_keys l v))
    ]

    admit-Saves :
        (ready : Bool) (r : Request) (l : Limiter LimitKey)
        → IsBounded l
        → Saves l (admit trusted_proxy parse_url hash ident ready r now l).0
    unfolding admit
    admit-Saves ready r l v = ground (arith, v, located-Saves r (parse_url r.url) l v)

    -- The credit that is left, and what a request has cost.
    abbrev Pays : Ticket → Limiter LimitKey → Limiter LimitKey × Turn (List Config) → Type 0
    Pays t l out =
        (left out.0 + (if (ident t.project == p) && passed out.1 then 1000 else 0) ≤ left l)
        × IsBounded out.0

    check_post-Pays :
        (r : Request) (t : Ticket) (configs : List Config) (l : Limiter LimitKey)
        → IsBounded l
        → Pays t l (check_post trusted_proxy parse_url hash ident r t configs now l)
    unfolding check_post cost
    check_post-Pays r t configs l v =
        let call = project_call trusted_proxy parse_url hash ident t.project now in
        ground (
          arith,
          take-IsBounded l call v,
          available-take (of_project p) 20 50 l call (omega arith) (λ _. (omega arith, omega arith))
              v,
        )

    checked-Pays :
        (r : Request) (t : Ticket) (configs : List Config) (l : Limiter LimitKey)
        → IsBounded l
        → Pays t l (checked trusted_proxy parse_url hash ident r t now l configs)
    checked-Pays r t [] l v = ground (arith, v)
    checked-Pays r t (c ∷ cs) l v = ground (arith, v, check_post-Pays r t (c ∷ cs) l v)

    check-Pays :
        (r : Request) (t : Ticket) (view : Option (List Config)) (l : Limiter LimitKey)
        → IsBounded l
        → Pays t l (check trusted_proxy parse_url hash ident r t view now l)
    unfolding check
    check-Pays r t none l v = ground (arith, v)
    check-Pays r t (some view) l v =
        checked-Pays r t (take 100 (filter (is_config hash t) view)) l v

  part-Pays :
      (p : Ident) (l : Limiter LimitKey) (s : Part)
      → IsBounded l
      → (available (of_project p) 20 50 (limiter_after l s) (time s)
            + (if reads_body p l s then 1000 else 0)
          ≤ available (of_project p) 20 50 l (time s))
        × IsBounded (limiter_after l s)
  unfolding limiter_after reads_body
  part-Pays p l (arrive ready r now) v = ground (arith, admit-Saves p now ready r l v)
  part-Pays p l (query r t view now) v = check-Pays p now r t view l v

  bodies_read-available :
      (p : Ident) (start finish : ℕ) (l : Limiter LimitKey) (parts : List Part)
      → IsOrdered start parts finish
      → IsBounded l
      → 1000 * bodies_read p l parts
        ≤ available (of_project p) 20 50 l start + (finish - start) * 20
  unfolding bodies_read
  bodies_read-available p start finish l [] order v = omega arith
  bodies_read-available p start finish l (s ∷ parts) order v =
      let h = part-Pays p l s v in
      ground (
        arith,
        h,
        available_later (of_project p) 20 50 start (time s) l order.0,
        regroup 20 start (time s) finish order.0 (IsOrdered-le (time s) parts finish order.1),
        bodies_read-available p (time s) finish (limiter_after l s) parts order.1 h.1,
      )

  -- However requests interleave, whatever keys and addresses they name and whatever the database
  -- answers, the server goes on to read at most 50 bodies for a project between two times, and one
  -- more for each 50 milliseconds.
  pub bodies_read-le :
      (p : Ident) (start finish : ℕ) (l : Limiter LimitKey) (parts : List Part)
      → IsOrdered start parts finish
      → IsBounded l
      → 1000 * bodies_read p l parts ≤ 50000 + (finish - start) * 20
  bodies_read-le p start finish l parts order v = omega (
    arith,
    bodies_read-available p start finish l parts order v,
    available-le (of_project p) 20 50 l start,
  )
