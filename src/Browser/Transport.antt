-- ===== src/Browser/Transport.antt =====
-- packages/browser/src/index.ts: the state of the SDK (`active`, `pending`, `controllers` and
-- `backoffUntil`), and the transport that Sentry is given. A request that is sent ends later, in
-- a step of its own. Sentry itself is not modelled: it calls `send`, and `init` and `close` act
-- before and behind its calls. A request and its controller are named by one identifier.
pub mod Backoff
pub mod Pending
pub mod Tests
use get_exception.Base.{
  Ident, ℕ, ◌+◌, max, Bool, true, false, not, ◌&&◌, ◌||◌, ◌==◌, ltb, leb, ◌===◌, list_eq, Option,
  none, some, List, [], ◌∷◌, ◌++◌, length, filter, codes, if◌then◌else◌,
}
use get_exception.Ingest.Http.{Text}
use get_exception.Browser.Dsn.{Url, dsn_endpoint, retry_after}

pub record Client : Type 0 where
  pub active : Bool
  pub pending : List Ident
  pub controllers : List Ident
  pub backoff_until : ℕ

abbrev pub fresh : Client
fresh = record { active = false; pending = []; controllers = []; backoff_until = 0 }

pub record Options : Type 0 where
  pub dsn : Text
  pub enabled : Bool

-- `init`: `starts` says that Sentry.init does not throw.
abbrev pub started : Bool → Client → Option Text → Client
started starts c none = record c { active = false }
started starts c (some endpoint) = record c { active = starts }

unfoldable pub init : (Text → Option Url) → Bool → Option Options → Client → Client
init parse starts none c = c
init parse starts (some o) c =
    if c.active || not o.enabled then c else started starts c (dsn_endpoint parse o.dsn)

-- An item of an envelope; `body` is what sanitizeEvent and encodeEnvelope give, `none` if one throws.
pub record Item : Type 0 where
  pub kind : Text
  pub body : Option Text

-- What the transport does at once: it answers with a status, or posts a body.
pub data Sent : Type 0 where
  answered : ℕ → Sent
  posted : Text → Sent

abbrev pub post : Ident → Client → Option Text → Client × Sent
post id c none = (c, answered 0)
post id c (some body) = (
  record c { pending = c.pending ++ (id ∷ []); controllers = c.controllers ++ (id ∷ []) },
  posted body,
)

abbrev pub send_items : Ident → Client → List Item → Client × Sent
send_items id c [] = (c, answered 400)
send_items id c (i ∷ []) = if i.kind === codes "event" then post id c i.body else (c, answered 400)
send_items id c (i ∷ j ∷ items) = (c, answered 400)

unfoldable pub send : Ident → ℕ → List Item → Client → Client × Sent
send id now items c =
    if not c.active || ltb now c.backoff_until || leb 30 (length c.pending)
    then (c, answered 429)
    else send_items id c items

-- How a request ends: with a response, or without one after an error, a time-out or an abort.
pub data Ending : Type 0 where
  response : (status : ℕ) (retry : Option Text) → Ending
  lost : Ending

module _ (seconds date : Text → Option ℕ) where
  abbrev pub delayed : ℕ → Ending → ℕ → ℕ
  delayed now (response status retry) until =
      if status == 429 then max until (now + retry_after seconds date retry now) else until
  delayed now lost until = until

  unfoldable pub settle : Ident → ℕ → Ending → Client → Client
  settle id now ending c = record c {
    backoff_until = delayed now ending c.backoff_until;
    controllers = filter (λ i. not (i == id)) c.controllers;
    pending = filter (λ i. not (i == id)) c.pending;
  }

-- The end of `close`, which only begins while the SDK is active: these requests are aborted.
unfoldable pub finish_close : Client → Client × List Ident
finish_close c = (record c { active = false }, c.controllers)
