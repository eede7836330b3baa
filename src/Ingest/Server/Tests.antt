-- ===== src/Ingest/Server/Tests.antt =====
-- Runs of the handler, with texts hashed to their length and every URL a path without a query.
use get_exception.Base.{
  ℕ, ◌+◌, ◌-◌, ◌*◌, ◌≤◌, ◌≡◌, ◌≢◌, refl, Bool, true, false, Option, none, some, List, [], ◌∷◌, ◌++◌,
  length, codes, arith, All, take, filter,
}
use get_exception.Protocol.Boundary.{ok}
use get_exception.Protocol.Envelope.{parse_envelope}
use get_exception.Protocol.Envelope.Tests.{decimals, positive, sent}
use get_exception.Protocol.Json.{Fields}
use get_exception.Protocol.Json.Reader.{bounded_json}
use get_exception.Ingest.BucketLimiter.{Limiter, take as take_credit}
use get_exception.Base.Dict.{get, has, set}
use get_exception.Ingest.BucketLimiter.Size.{IsBounded}
use get_exception.Ingest.Http.{Text, auth_keys, split, read_envelope_body, match_path}
use get_exception.Ingest.Http.Body.{read_envelope_body-concat}
use get_exception.Ingest.Http.Tests.{key_text}
use get_exception.Ingest.Request.{
  LimitKey, limit_key_eq, Request, Config, Sanitized, safe, inserted, over_capacity, Ticket, go,
  is_config,
}
use get_exception.Ingest.Server.{admit, check}
use get_exception.Ingest.Deposit.{store}
use get_exception.Ingest.Deposit.Stored.{IsStored, store_refused}
use get_exception.Ingest.Server.Admitted.{IsAdmitted, IsChosen}
use get_exception.Ingest.Server.Stored.{accept_safe}
use get_exception.Ingest.Server.Bounds.{Part, arrive, query, IsOrdered, bodies_read, bodies_read-le}

abbrev project_text : Text
project_text = codes "0c2b8f4e-1111-4222-8333-444444444444"

abbrev origin_text : Text
origin_text = codes "https://a.example"

abbrev post : Request
post = record {
  url = codes "/api/0c2b8f4e-1111-4222-8333-444444444444/envelope/";
  method = codes "POST";
  remote_address = some (codes "192.0.2.1");
  real_ip = none;
  forwarded_proto = none;
  origin = some origin_text;
  authorization = none;
  sentry_auth = some (codes "Sentry sentry_key=" ++ key_text);
  content_type = some (codes "text/plain;charset=UTF-8");
  content_encoding = none;
  content_length = 0;
  requested_method = none;
  requested_headers = none;
  raw_names = codes "Origin" ∷ codes "X-Sentry-Auth" ∷ [];
  chunks = sent ∷ [];
}

abbrev ticket : Ticket
ticket = record { project = project_text; key = key_text }

abbrev config : Config
config = record {
  project_id = project_text;
  key_hash = 64;
  origin = origin_text;
  allowed_tags = [];
}

abbrev empty_query : Text → Option (Text × List Text)
empty_query url = some (url, [])

abbrev keep_event : Fields ℕ → Text → List Text → Sanitized (Fields ℕ)
keep_event event event_id tags = safe false event

abbrev nowhere : Text → Bool
nowhere o = false

abbrev idle : Limiter LimitKey
idle = record { buckets = []; last_sweep = 0 }

post_admitted : (admit false empty_query length length true post 1000 idle).1 ≡ go ticket
unfolding admit take_credit get has set match_path auth_keys
post_admitted = refl

post_checked :
    (check false empty_query length length post ticket (some (config ∷ [])) 1000 idle).1
    ≡ go (config ∷ [])
unfolding check take_credit get has set split
post_checked = refl

post_stored :
    (store length decimals some positive nowhere keep_event post ticket
      (config ∷ [])
      7
      1000
      inserted
      []).1.status
    ≡ 200
unfolding store parse_envelope bounded_json read_envelope_body
post_stored = refl

capacity_refused :
    (store length decimals some positive nowhere keep_event post ticket
      (config ∷ [])
      7
      1000
      over_capacity
      []).1.status
    ≡ 429
unfolding store parse_envelope bounded_json read_envelope_body
capacity_refused = refl

accept_safe_example :
    IsAdmitted false empty_query length length post ticket
    × IsChosen false empty_query length length post
        (take 100 (filter (is_config length ticket) (config ∷ [])))
        (config ∷ [])
    × All (λ c. is_config length ticket c ≡ true) (config ∷ [])
    × IsStored length decimals some positive nowhere keep_event post ticket
        (config ∷ [])
        7
        1000
        []
        (store length decimals some positive nowhere keep_event post ticket
          (config ∷ [])
          7
          1000
          inserted
          [])
accept_safe_example =
    accept_safe false empty_query length length decimals some positive nowhere keep_event post
      ticket (config ∷ []) (config ∷ []) true idle idle 1000 1000 1000 7 inserted [] post_admitted
      post_checked post_stored

not_stored :
    (store length decimals some positive nowhere keep_event post ticket
      (config ∷ [])
      7
      1000
      over_capacity
      []).1.status
    ≢ 200
not_stored = rw capacity_refused (omega arith)

queue_kept :
    (store length decimals some positive nowhere keep_event post ticket
      (config ∷ [])
      7
      1000
      over_capacity
      []).0
    ≡ []
queue_kept =
    store_refused length decimals some positive nowhere keep_event post ticket (config ∷ []) 7 1000
      [] over_capacity not_stored

read_envelope_body-concat_example :
    read_envelope_body 5 ((1 ∷ 2 ∷ []) ∷ [] ∷ (3 ∷ []) ∷ []) ≡ ok (1 ∷ 2 ∷ 3 ∷ [])
read_envelope_body-concat_example = read_envelope_body-concat 5 ((1 ∷ 2 ∷ []) ∷ [] ∷ (3 ∷ []) ∷ [])

abbrev parts : List Part
parts = arrive true post 1000 ∷ query post ticket (some (config ∷ [])) 1000 ∷ []

idle-IsBounded : IsBounded idle
idle-IsBounded = record { distinct = tt; fits = omega arith }

parts_order : IsOrdered 1000 parts 1050
parts_order = (omega arith, (omega arith, omega arith))

bodies_read-le_example :
    1000 * bodies_read false empty_query length length 36 idle parts ≤ 50000 + (1050 - 1000) * 20
bodies_read-le_example =
    bodies_read-le false empty_query length length 36 1000 1050 idle parts parts_order
      idle-IsBounded
