-- ===== src/Ingest/Deposit/Stored.antt =====
-- When the part of the handler behind the body stores a row.
use get_exception.Base.{
  Ident, ℕ, ◌≡◌, ◌≢◌, refl, Bool, true, false, not, Bool-cases, ◌⊎◌, inl, inr, ◌&&◌, list_eq,
  Option, List, arith,
}
use get_exception.Protocol.Boundary.{Outcome, ok, err, out_of_fuel, invalid, too_large, unsupported}
use get_exception.Protocol.Json.{Numbers, Fields}
use get_exception.Protocol.Envelope.{parse_envelope, is_event_id}
use get_exception.Protocol.Envelope.Safety.{parse_envelope_safe}
use get_exception.Ingest.Http.{Text, Reply, respond, read_envelope_body}
use get_exception.Worker.Inbox.{Row, new_row, accept}
use get_exception.Ingest.Request.{
  Request, Config, Sanitized, safe, refused, malformed, Insert, inserted, over_capacity,
  insert_failed, Ticket, cors,
}
use get_exception.Ingest.Deposit.{store, received, parsed, deposit, tags_of, is_local}

module _ (ident : Text → Ident) (N : Numbers) (decode : List ℕ → Option (List ℕ))
    (integer : N.Number → Option ℕ) (is_loopback : Text → Bool) {Payload : Type 0}
    (sanitize : Fields N.Number → Text → List Text → Sanitized Payload) where
  -- The reply, and what the part from the body on has done to the queue.
  abbrev pub IsStored :
      Request
      → Ticket
      → List Config
      → Ident
      → ℕ
      → List (Row Payload)
      → List (Row Payload) × Reply
      → Type 0
  IsStored r t configs id now inbox out =
      (out.1.status ≡ 200)
      × (event_id : Text) × (payload : Payload) × (is_event_id event_id ≡ true)
      × (out.0 ≡ accept (new_row id (ident t.project) (ident event_id) payload now) inbox)
      × ((bytes : List ℕ) × (event : Fields N.Number) × (development : Bool) × (read_envelope_body
              r.content_length r.chunks
            ≡ ok bytes)
          × (parse_envelope N decode integer bytes ≡ ok (event, event_id))
          × (sanitize event event_id (tags_of configs) ≡ safe development payload)
          × ((is_local is_loopback r.origin && not development) ≡ false))

  abbrev pub Stores :
      Request
      → Ticket
      → List Config
      → Ident
      → ℕ
      → List (Row Payload)
      → List (Row Payload) × Reply
      → Type 0
  Stores r t configs id now inbox out =
      ((out.1.status ≢ 200) × (out.0 ≡ inbox)) ⊎ IsStored r t configs id now inbox out

  module _ (r : Request) (t : Ticket) (configs : List Config) (id : Ident) (now : ℕ)
      (inbox : List (Row Payload)) where
    abbrev tags : List Text
    tags = tags_of configs

    module _ (bytes : List ℕ) (event : Fields N.Number) (event_id : Text)
        (body : read_envelope_body r.content_length r.chunks ≡ ok bytes)
        (envelope : parse_envelope N decode integer bytes ≡ ok (event, event_id)) where
      safe-Stores :
          (development : Bool) (payload : Payload) (answer : Insert)
          → sanitize event event_id tags ≡ safe development payload
          → Stores r t configs id now inbox (
              deposit ident N decode integer is_loopback sanitize r t.project event_id id now answer
                inbox
                (safe development payload))
      safe-Stores development payload inserted s =
          let h = parse_envelope_safe N decode integer bytes event event_id envelope in
          let out : List (Row Payload) × Reply = (
            accept (new_row id (ident t.project) (ident event_id) payload now) inbox,
            respond (cors r.origin) 200,
          ) in
          elim (Bool-cases (is_local is_loopback r.origin && not development)) [
            | inl b ↦ rw b (inl (omega arith, refl))
            | inr b ↦
                let stored : IsStored r t configs id now inbox out = (
                  refl,
                  event_id,
                  payload,
                  h.1,
                  refl,
                  (bytes, event, development, body, envelope, s, b),
                ) in
                rw b (inr stored)
          ]
      safe-Stores development payload over_capacity s = ground arith
      safe-Stores development payload insert_failed s = ground arith

      deposit-Stores :
          (answer : Insert) (s : Sanitized Payload)
          → sanitize event event_id tags ≡ s
          → Stores r t configs id now inbox (
              deposit ident N decode integer is_loopback sanitize r t.project event_id id now answer
                inbox s)
      deposit-Stores answer (safe development payload) s = safe-Stores development payload answer s
      deposit-Stores answer (refused invalid) s = ground arith
      deposit-Stores answer (refused too_large) s = ground arith
      deposit-Stores answer (refused unsupported) s = ground arith
      deposit-Stores answer malformed s = ground arith

    parsed-Stores :
        (bytes : List ℕ) (answer : Insert) (o : Outcome (Fields N.Number × Text))
        → read_envelope_body r.content_length r.chunks ≡ ok bytes
        → parse_envelope N decode integer bytes ≡ o
        → Stores r t configs id now inbox (
            parsed ident N decode integer is_loopback sanitize r t.project tags id now answer inbox
              o)
    parsed-Stores bytes answer (ok (event, event_id)) body envelope =
        deposit-Stores bytes event event_id body envelope answer (sanitize event event_id tags) refl
    parsed-Stores bytes answer (err invalid) body envelope = ground arith
    parsed-Stores bytes answer (err too_large) body envelope = ground arith
    parsed-Stores bytes answer (err unsupported) body envelope = ground arith
    parsed-Stores bytes answer out_of_fuel body envelope = ground arith

    received-Stores :
        (answer : Insert) (o : Outcome (List ℕ))
        → read_envelope_body r.content_length r.chunks ≡ o
        → Stores r t configs id now inbox (
            received ident N decode integer is_loopback sanitize r t.project tags id now answer
              inbox o)
    received-Stores answer (ok bytes) body =
        parsed-Stores bytes answer (parse_envelope N decode integer bytes) body refl
    received-Stores answer (err invalid) body = ground arith
    received-Stores answer (err too_large) body = ground arith
    received-Stores answer (err unsupported) body = ground arith
    received-Stores answer out_of_fuel body = ground arith

    pub store-Stores :
        (answer : Insert)
        → Stores r t configs id now inbox
            (store ident N decode integer is_loopback sanitize r t configs id now answer inbox)
    unfolding store
    store-Stores answer = received-Stores answer (read_envelope_body r.content_length r.chunks) refl

    -- A reply to a request that was admitted and checked, and whose row was stored or refused.
    abbrev handled : Insert → List (Row Payload) × Reply
    handled answer =
        store ident N decode integer is_loopback sanitize r t configs id now answer inbox

    -- Whatever its body and the database's answer, a request that is not answered 200 leaves the
    -- queue as it was.
    pub store_refused :
        (answer : Insert) → (handled answer).1.status ≢ 200 → (handled answer).0 ≡ inbox
    store_refused answer h = elim (store-Stores answer) [ inl s ↦ s.1 | inr s ↦ absurd (h s.0) ]
