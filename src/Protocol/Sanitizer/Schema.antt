-- ===== src/Protocol/Sanitizer/Schema.antt =====
-- `safeEventSchema` as a test, and `sanitizeEvent`, which applies it to the event that it built.
use get_exception.Base.{
  ℕ, Bool, true, ◌&&◌, leb, list_eq, Option, none, some, List, [], ◌∷◌, length, all, codes,
}
use get_exception.Ingest.Http.{Text}
use get_exception.Protocol.Json.{Json, Fields}
use get_exception.Protocol.Envelope.{is_event_id}
use get_exception.Protocol.Sanitizer.Texts.{Doubles, Rules, string_of, is_code, is_app_version}
use get_exception.Protocol.Sanitizer.Parts.{Checked, is_in, within, is_integer_in}
use get_exception.Protocol.Sanitizer.Contexts.{
  categories, methods, api_reasons, browser_names, Breadcrumb, ApiContext, BrowserContext,
}
use get_exception.Protocol.Sanitizer.Event.{Frame, SafeEvent, sanitize_with}

-- `optional()`
abbrev pub optional : {A : Type 0} → (A → Bool) → Option A → Bool
optional p none = true
optional p (some a) = p a

-- `string().max(n)`
abbrev pub at_most : ℕ → Text → Bool
at_most n t = leb (length t) n

-- `enum(names)`, of a value of any type.
abbrev pub is_enum : {N : Type 0} → List Text → Json N → Bool
is_enum names v = is_in names (string_of (some v))

abbrev pub environments : List Text
environments = codes "production" ∷ codes "staging" ∷ codes "development" ∷ []

abbrev pub tag_ok : Text × Text → Bool
tag_ok (key, value) = at_most 32 key && at_most 120 value

module _ {N : Type 0} (δ : Doubles N) where
  -- `number()` with a range; a double that is not finite is no number.
  abbrev pub is_number_in : ℕ → ℕ → N → Bool
  is_number_in a b n = δ.is_finite n && within δ (δ.of_nat a) (δ.of_nat b) n

  unfoldable pub safe_breadcrumb : Breadcrumb N → Bool
  safe_breadcrumb b =
      is_enum categories b.category
      && δ.is_finite b.timestamp
      && optional (at_most 512) b.path
      && optional (is_enum methods) b.method
      && optional (is_integer_in δ 100 599) b.status_code
      && optional (is_number_in 0 300000) b.duration
      && optional (at_most 120) b.operation

  abbrev pub api_context_ok : ApiContext N → Bool
  api_context_ok a =
      optional is_code a.code
      && optional (λ t. is_in api_reasons (some t)) a.reason
      && optional (is_integer_in δ 100 599) a.status_code

  abbrev pub browser_context_ok : BrowserContext N → Bool
  browser_context_ok b = is_in browser_names (some b.name) && is_integer_in δ 1 9999 b.major

module _ {N : Type 0} (δ : Doubles N) (ρ : Rules) where
  unfoldable pub safe_frame : Frame N → Bool
  safe_frame f =
      at_most 512 f.filename
      && at_most 160 f.function
      && is_integer_in δ 0 10000000 f.lineno
      && is_integer_in δ 0 10000000 f.colno
      && optional ρ.is_uuid f.debug_id

  unfoldable pub safe_event : SafeEvent N → Bool
  unfolding safe_frame safe_breadcrumb is_app_version
  safe_event e =
      is_event_id e.event_id
      && δ.is_finite e.timestamp
      && at_most 1024 e.message
      && at_most 120 e.exception_type
      && is_in environments (some e.environment)
      && optional (at_most 160) e.release
      && optional is_app_version e.app_version
      && optional (at_most 64) e.dist
      && optional (at_most 512) e.route
      && optional (api_context_ok δ) e.api
      && optional (browser_context_ok δ) e.browser
      && all safe_frame e.frames
      && leb (length e.frames) 100
      && all tag_ok e.tags
      && all (safe_breadcrumb δ) e.breadcrumbs
      && leb (length e.breadcrumbs) 50

  unfoldable pub sanitize_event : Fields N → Text → N → List Text → Checked (SafeEvent N)
  unfolding sanitize_with safe_event
  sanitize_event = sanitize_with δ ρ safe_event
