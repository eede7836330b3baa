-- ===== src/Ingest/Server/Stored.antt =====
-- What an accepted request has passed.
use get_exception.Base.{
  Ident, ℕ, ◌≡◌, Bool, true, inl, inr, list_eq, Option, some, List, filter, take, All,
}
use get_exception.Protocol.Json.{Numbers, Fields}
use get_exception.Ingest.BucketLimiter.{Limiter}
use get_exception.Ingest.Http.{Text}
use get_exception.Worker.Inbox.{Row}
use get_exception.Ingest.Request.{
  LimitKey, Request, Config, Sanitized, Insert, go, Ticket, is_config,
}
use get_exception.Ingest.Server.{admit, check}
use get_exception.Ingest.Deposit.{store}
use get_exception.Ingest.Deposit.Stored.{IsStored, store-Stores}
use get_exception.Ingest.Server.Admitted.{
  IsAdmitted, IsChosen, admit-IsAdmitted, check-IsChecked, filter-All, take-All,
}

module _ (trusted_proxy : Bool) (parse_url : Text → Option (Text × List Text))
    (hash ident : Text → Ident) where
  -- A request is answered 200 behind its two checks only if its path, method and key are in form,
  -- the database lists configurations of that project and key, its origin, if it names one, is one of
  -- theirs, and its body is an envelope whose event passes the sanitizer, for development if the
  -- origin is local; and then the event's row is offered to the queue.
  pub accept_safe :
      (N : Numbers) (decode : List ℕ → Option (List ℕ)) (integer : N.Number → Option ℕ)
      (is_loopback : Text → Bool) {Payload : Type 0}
      (sanitize : Fields N.Number → Text → List Text → Sanitized Payload) (r : Request) (t : Ticket)
      (view configs : List Config) (ready : Bool) (l m : Limiter LimitKey) (start queried now : ℕ)
      (id : Ident) (answer : Insert) (inbox : List (Row Payload))
      → (admit trusted_proxy parse_url hash ident ready r start l).1 ≡ go t
      → (check trusted_proxy parse_url hash ident r t (some view) queried m).1 ≡ go configs
      → (store ident N decode integer is_loopback sanitize r t configs id now answer inbox).1.status
        ≡ 200
      → IsAdmitted trusted_proxy parse_url hash ident r t
        × IsChosen trusted_proxy parse_url hash ident r
            (take 100 (filter (is_config hash t) view))
            configs
        × All (λ c. is_config hash t c ≡ true) configs
        × IsStored ident N decode integer is_loopback sanitize r t configs id now inbox
            (store ident N decode integer is_loopback sanitize r t configs id now answer inbox)
  accept_safe N decode integer is_loopback sanitize r t view configs ready l m start queried now id
        answer inbox admitted checked_at status =
      let a : IsAdmitted trusted_proxy parse_url hash ident r t =
        rw admitted at (admit-IsAdmitted trusted_proxy parse_url hash ident ready r start l) in
      let c : IsChosen trusted_proxy parse_url hash ident r
          (take 100 (filter (is_config hash t) view)) configs =
        rw checked_at at (check-IsChecked trusted_proxy parse_url hash ident r t view queried m) in
      let own : All (λ c. is_config hash t c ≡ true) configs =
        rw c.0
          (take-All (λ c. is_config hash t c ≡ true) 100 _ (filter-All (is_config hash t) view)) in
      elim (store-Stores ident N decode integer is_loopback sanitize r t configs id now inbox
        answer) [ inl s ↦ absurd (s.0 status) | inr s ↦ (a, c, own, s) ]
