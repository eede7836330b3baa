-- ===== src/Browser/Transport/Backoff.antt =====
-- How long the SDK is silent.
use get_exception.Base.{
  Ident, ℕ, ◌+◌, ◌≤◌, ◌<◌, ◌≡◌, refl, Bool, true, Option, none, some, List, Option-cases, ◌⊎◌, inl,
  inr, [], ◌∷◌, arith, lt→ltb, ltb,
}
use get_exception.Ingest.Http.{Text}
use get_exception.Browser.Dsn.{Url, dsn_endpoint, retry_after}
use get_exception.Browser.Dsn.Limits.{retry_after-within}
use get_exception.Browser.Transport.{
  Client, Options, Item, answered, response, lost, init, send, send_items, settle, finish_close,
}
use get_exception.Browser.Transport.Pending.{
  Step, by_init, by_send, by_settle, by_close, Reach, here, next,
}

module _ (parse : Text → Option Url) (seconds date : Text → Option ℕ) where
  init-backoff :
      (starts : Bool) (o : Option Options) (c : Client)
      → (init parse starts o c).backoff_until ≡ c.backoff_until
  unfolding init
  init-backoff starts none c = refl
  init-backoff starts (some o) c = elim (Option-cases (dsn_endpoint parse o.dsn)) [
    | inl e ↦ rw e (ground arith)
    | inr (endpoint, e) ↦ rw e (ground arith)
  ]

  send_items-backoff :
      (id : Ident) (items : List Item) (c : Client)
      → (send_items id c items).0.backoff_until ≡ c.backoff_until
  send_items-backoff id [] c = refl
  send_items-backoff id (i ∷ []) c = elim (Option-cases i.body) [
    | inl b ↦ rw b (ground arith)
    | inr (body, b) ↦ rw b (ground arith)
  ]
  send_items-backoff id (i ∷ j ∷ items) c = refl

  Step-backoff : {c d : Client} → Step parse seconds date c d → c.backoff_until ≤ d.backoff_until
  unfolding send settle finish_close
  Step-backoff (by_init starts o c) = omega (arith, init-backoff starts o c)
  Step-backoff (by_send id now items c) = ground (arith, send_items-backoff id items c)
  Step-backoff (by_settle id now (response status retry) c) = ground arith
  Step-backoff (by_settle id now lost c) = omega arith
  Step-backoff (by_close c) = ground arith

  Reach-backoff : {c d : Client} → Reach parse seconds date c d → c.backoff_until ≤ d.backoff_until
  Reach-backoff here = omega arith
  Reach-backoff (next r s) = omega (arith, Reach-backoff r, Step-backoff s)

  -- After a response with status 429 nothing is sent for the time that `retryAfterMs` reads from it,
  -- which is never more than five minutes, nor for the first second, whatever happens in between: a
  -- call is answered 429 at once.
  pub send_silent :
      (id other : Ident) (at now : ℕ) (retry : Option Text) (items : List Item) (c d : Client)
      → Reach parse seconds date (settle seconds date id at (response 429 retry) c) d
      → (now < at + retry_after seconds date retry at) ⊎ (now < at + 1000)
      → send other now items d ≡ (d, answered 429)
  unfolding send settle
  send_silent id other at now retry items c d r early =
      let h = Reach-backoff r in
      let w = retry_after-within seconds date retry at in
      let b : ltb now d.backoff_until ≡ true =
        lt→ltb now d.backoff_until (ground (arith, h, w, early)) in
      ground (arith, b)
