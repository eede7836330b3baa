-- ===== src/Ingest/Server.antt =====
-- apps/ingest/src/server.ts: the handler of createIngestServer. It yields to other requests at
-- the query of the ingestion keys and at the body, so it is three parts, each with the state that
-- it finds: `admit`, `check` and, in Ingest/Deposit, `store`. The parser of URLs and SHA-256 are
-- parameters; so are `ident`, which numbers the texts of identifiers, and what the database answers.
pub mod Admitted
pub mod Stored
pub mod Bounds
pub mod Tests
use get_exception.Base.{
  Ident, ℕ, ◌+◌, Bool, true, false, not, ◌&&◌, ◌||◌, ◌==◌, ltb, leb, ◌===◌, list_eq, Eq, ◌≡◌, ◌↔◌,
  refl, ap, arith, ==_iff, Option, none, some, String, List, [], ◌∷◌, ◌++◌, length, take, filter,
  any, all, codes, if◌then◌else◌,
}
use get_exception.Protocol.Boundary.{
  Outcome, ok, err, out_of_fuel, Reason, invalid, too_large, unsupported,
}
use get_exception.Protocol.Json.{Numbers, Fields}
use get_exception.Protocol.Envelope.{parse_envelope}
use get_exception.Ingest.BucketLimiter
use get_exception.Ingest.BucketLimiter.{Limiter, Call}
use get_exception.Ingest.Http.{
  Text, Header, Reply, header, respond, read_envelope_body, is_given, or_empty, match_path, is_key,
  auth_keys, lower_case, split, first_part, trim,
}
use get_exception.Ingest.Request.{
  or_unknown, LimitKey, same_key, same_key_iff, limit_key_eq, Request, Config, Insert, ◌>>=◌, ◌>>◌,
  refuse_if, has_duplicate, is_value, named_key, valid_key, has_keys, cors, preflight,
  asked_headers, is_envelope_type, Ticket, is_known_method, preflight_reply, lists_origin,
  is_config, Sanitized, Turn, installation, of_ip, of_project, safe, refused, malformed, inserted,
  over_capacity, insert_failed, stop, go,
}
use get_exception.Worker.Inbox.{Row, new_row, accept}

module _ (trusted_proxy : Bool) (parse_url : Text → Option (Text × List Text))
    (hash ident : Text → Ident) where
  pub client_ip : Request → Text
  client_ip r = if trusted_proxy then or_unknown r.real_ip else or_unknown r.remote_address

  -- The checks of the headers and of the key.
  unfoldable pub credentials : Request → Text → List Text → Turn Ticket
  credentials r project query_keys = do
    refuse_if (has_duplicate r || is_given r.authorization) [] 400
    refuse_if (trusted_proxy && not (is_value (codes "https") r.forwarded_proto)) [] 400
    refuse_if (ltb 1 (length query_keys) || (has_keys query_keys && is_given r.sentry_auth)) [] 400
    named ← named_key query_keys r.sentry_auth
    key ← valid_key named
    go (record { project = project; key = key })

  abbrev pub installation_call : ℕ → Call LimitKey
  installation_call now = record { key = installation; rate = 100; burst = 200; now = now }

  unfoldable pub ip_call : Request → ℕ → Call LimitKey
  unfolding client_ip
  ip_call r now = record {
    key = of_ip (hash (client_ip r));
    rate = if is_given r.origin then 10 else 2;
    burst = if is_given r.origin then 30 else 5;
    now = now;
  }

  -- A path of the API: both limits, and then the checks.
  unfoldable pub limited :
      Request → Text → List Text → ℕ → Limiter LimitKey → Limiter LimitKey × Turn Ticket
  unfolding credentials ip_call
  limited r project query_keys now l =
      let first = BucketLimiter.take l (installation_call now) in
      let second = BucketLimiter.take first.0 (ip_call r now) in
      if not first.1
      then (first.0, stop (respond [] 429))
      else if not second.1
      then (second.0, stop (respond [] 429))
      else (second.0, credentials r project query_keys)

  abbrev pub routed :
      Request → ℕ → Limiter LimitKey → List Text → Option Text → Limiter LimitKey × Turn Ticket
  routed r now l query_keys none = (l, stop (respond [] 404))
  routed r now l query_keys (some project) =
      if is_known_method r.method
      then limited r project query_keys now l
      else (l, stop (respond [] 404))

  -- A URL that cannot be parsed throws out of the handler.
  abbrev pub located :
      Request → ℕ → Limiter LimitKey → Option (Text × List Text) → Limiter LimitKey × Turn Ticket
  located r now l none = (l, stop (respond [] 400))
  located r now l (some (path, query_keys)) = routed r now l query_keys (match_path path)

  -- The handler up to its query; `ready` is the answer of assertSchema and inboxReadiness, which
  -- rolls its row back.
  unfoldable pub admit : Bool → Request → ℕ → Limiter LimitKey → Limiter LimitKey × Turn Ticket
  unfolding limited
  admit ready r now l =
      if r.url === codes "/health/live"
      then (l, stop (respond [] 200))
      else if r.url === codes "/health/ready"
      then (l, stop (respond [] (if ready then 200 else 503)))
      else located r now l (parse_url r.url)

  abbrev pub project_call : Text → ℕ → Call LimitKey
  project_call project now = record {
    key = of_project (ident project);
    rate = 20;
    burst = 50;
    now = now;
  }

  -- The handler between the query and the body. `configs` is the view; a query that fails is none.
  unfoldable pub check_post :
      Request → Ticket → List Config → ℕ → Limiter LimitKey → Limiter LimitKey × Turn (List Config)
  check_post r t configs now l =
      let taken = BucketLimiter.take l (project_call t.project now) in
      (
        taken.0,
        do
          refuse_if (not taken.1) (cors r.origin) 429
          refuse_if
              (is_given r.content_encoding && not (is_value (codes "identity") r.content_encoding))
              (cors r.origin) 415
          refuse_if (not (is_envelope_type r.content_type)) (cors r.origin) 415
          go configs,
      )

  abbrev pub checked :
      Request → Ticket → ℕ → Limiter LimitKey → List Config → Limiter LimitKey × Turn (List Config)
  checked r t now l [] = (l, stop (respond [] 403))
  checked r t now l (c ∷ cs) =
      if is_given r.origin && not (lists_origin r.origin (c ∷ cs))
      then (l, stop (respond [] 403))
      else if r.method === codes "OPTIONS"
      then (l, stop (preflight_reply r (cors r.origin)))
      else check_post r t (c ∷ cs) now l

  unfoldable pub check :
      Request
      → Ticket
      → Option (List Config)
      → ℕ
      → Limiter LimitKey
      → Limiter LimitKey × Turn (List Config)
  unfolding check_post preflight_reply
  check r t none now l = (l, stop (respond [] 503))
  check r t (some view) now l = checked r t now l (take 100 (filter (is_config hash t) view))
