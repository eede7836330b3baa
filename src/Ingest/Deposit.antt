-- ===== src/Ingest/Deposit.antt =====
-- apps/ingest/src/server.ts: the handler of createIngestServer from the body on, `store`. Its rows
-- are those of the queue, Worker/Inbox. isLoopbackOrigin and sanitizeEvent are parameters; so are
-- `ident`, which numbers the texts of identifiers, and the answer of the insert.
pub mod Stored
use get_exception.Base.{
  Ident, ℕ, ◌+◌, Bool, true, false, not, ◌&&◌, ◌||◌, ◌==◌, ltb, leb, ◌===◌, list_eq, Eq, ◌≡◌, ◌↔◌,
  refl, ap, arith, ==_iff, Option, none, some, String, List, [], ◌∷◌, ◌++◌, length, take, filter,
  any, all, codes, if◌then◌else◌,
}
use get_exception.Protocol.Boundary.{
  Outcome, ok, err, out_of_fuel, Reason, invalid, too_large, unsupported,
}
use get_exception.Protocol.Json.{Numbers, Fields}
use get_exception.Protocol.Envelope.{parse_envelope}
use get_exception.Ingest.BucketLimiter
use get_exception.Ingest.BucketLimiter.{Limiter, Call}
use get_exception.Ingest.Http.{
  Text, Header, Reply, header, respond, read_envelope_body, is_given, or_empty, match_path, is_key,
  auth_keys, lower_case, split, first_part, trim,
}
use get_exception.Ingest.Request.{
  or_unknown, LimitKey, same_key, same_key_iff, limit_key_eq, Request, Config, Insert, ◌>>=◌, ◌>>◌,
  refuse_if, has_duplicate, is_value, named_key, valid_key, has_keys, cors, preflight,
  asked_headers, is_envelope_type, Ticket, is_known_method, preflight_reply, lists_origin,
  is_config, Sanitized, Turn, installation, of_ip, of_project, safe, refused, malformed, inserted,
  over_capacity, insert_failed, stop, go,
}
use get_exception.Worker.Inbox.{Row, new_row, accept}

abbrev pub boundary_status : Reason → ℕ
boundary_status invalid = 400
boundary_status too_large = 413
boundary_status unsupported = 400

abbrev pub insert_reply : Insert → List Header → Reply
insert_reply inserted set = respond set 200
insert_reply over_capacity set = respond set 429
insert_reply insert_failed set = respond set 503

abbrev pub is_local : (Text → Bool) → Option Text → Bool
is_local is_loopback none = false
is_local is_loopback (some o) = is_given (some o) && is_loopback o

abbrev pub tags_of : List Config → List Text
tags_of [] = []
tags_of (c ∷ cs) = c.allowed_tags

module _ (ident : Text → Ident) (N : Numbers) (decode : List ℕ → Option (List ℕ))
    (integer : N.Number → Option ℕ) (is_loopback : Text → Bool) {Payload : Type 0}
    (sanitize : Fields N.Number → Text → List Text → Sanitized Payload) where
  abbrev pub insert_row : Insert → Row Payload → List (Row Payload) → List (Row Payload)
  insert_row inserted new inbox = accept new inbox
  insert_row over_capacity new inbox = inbox
  insert_row insert_failed new inbox = inbox

  abbrev pub deposit :
      Request
      → Text
      → Text
      → Ident
      → ℕ
      → Insert
      → List (Row Payload)
      → Sanitized Payload
      → List (Row Payload) × Reply
  deposit r project event_id id now answer inbox (safe development payload) =
      if is_local is_loopback r.origin && not development
      then (inbox, respond (cors r.origin) 403)
      else (
        insert_row answer (new_row id (ident project) (ident event_id) payload now) inbox,
        insert_reply answer (cors r.origin),
      )
  deposit r project event_id id now answer inbox (refused reason) =
      (inbox, respond (cors r.origin) (boundary_status reason))
  deposit r project event_id id now answer inbox malformed = (inbox, respond (cors r.origin) 503)

  abbrev pub parsed :
      Request
      → Text
      → List Text
      → Ident
      → ℕ
      → Insert
      → List (Row Payload)
      → Outcome (Fields N.Number × Text)
      → List (Row Payload) × Reply
  parsed r project tags id now answer inbox (ok (event, event_id)) =
      deposit r project event_id id now answer inbox (sanitize event event_id tags)
  parsed r project tags id now answer inbox (err reason) =
      (inbox, respond (cors r.origin) (boundary_status reason))
  parsed r project tags id now answer inbox out_of_fuel = (inbox, respond (cors r.origin) 503)

  abbrev pub received :
      Request
      → Text
      → List Text
      → Ident
      → ℕ
      → Insert
      → List (Row Payload)
      → Outcome (List ℕ)
      → List (Row Payload) × Reply
  received r project tags id now answer inbox (ok bytes) =
      parsed r project tags id now answer inbox (parse_envelope N decode integer bytes)
  received r project tags id now answer inbox (err reason) =
      (inbox, respond (cors r.origin) (boundary_status reason))
  received r project tags id now answer inbox out_of_fuel = (inbox, respond (cors r.origin) 503)

  -- The handler from the body on: its row, with a fresh identifier, and the reply.
  unfoldable pub store :
      Request
      → Ticket
      → List Config
      → Ident
      → ℕ
      → Insert
      → List (Row Payload)
      → List (Row Payload) × Reply
  store r t configs id now answer inbox =
      received r t.project (tags_of configs) id now answer inbox
        (read_envelope_body r.content_length r.chunks)
