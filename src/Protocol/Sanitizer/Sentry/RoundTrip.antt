-- ===== src/Protocol/Sanitizer/Sentry/RoundTrip.antt =====
-- An event that is sent with `toSentryEvent` and sanitized again.
use get_exception.Base.{
  ℕ, zero, suc, ◌≡◌, refl, ap, ◌∙◌, Bool, true, false, leb, leb→le, list_eq, some, List, [], ◌∷◌,
  length, drop, codes, arith,
}
use get_exception.Ingest.Http.{Text}
use get_exception.Protocol.Json.{Json, str, obj}
use get_exception.Protocol.Envelope.{get_field, is_text}
use get_exception.Protocol.Sanitizer.Texts.{Doubles, Rules, safe_path}
use get_exception.Protocol.Sanitizer.Parts.{passed, items}
use get_exception.Protocol.Sanitizer.Event.{
  SafeEvent, last_of, is_supported, is_known_level, raw_breadcrumbs, safe_breadcrumbs, build,
  pass_if, sanitize_with,
}
use get_exception.Protocol.Sanitizer.Schema.{safe_event, sanitize_event}
use get_exception.Protocol.Sanitizer.Sentry.Stable.{IsStable, given_text}
use get_exception.Protocol.Sanitizer.Sentry.Contexts.{
  api_again, browser_again, tags_again, route_again, version_again,
}
use get_exception.Protocol.Sanitizer.Sentry.{
  list_json, frame_fields, crumb_fields, level_text, to_sentry_event,
}
use get_exception.Protocol.Sanitizer.Sentry.Parts.{
  string_of-text_json, not-not, safe_frames-list_json,
}
use get_exception.Protocol.Sanitizer.Sentry.Crumbs.{safe_breadcrumbs-list_json}
use get_exception.Protocol.Sanitizer.Sentry.Lookup.{
  get_type, get_values, get_tags, get_breadcrumbs, get_contexts, get_release, get_dist, get_app,
  get_api, get_browser, get_route, get_version,
}

drop_none : {A : Type 0} (n : ℕ) (xs : List A) → n ≡ 0 → drop n xs ≡ xs
drop_none zero xs h = refl
drop_none (suc n) xs h = ground (arith, h)

length-items :
    {A N : Type 0} (f : A → Json N) (xs : List A) → length (items (list_json f xs)) ≡ length xs
length-items f [] = refl
length-items f (x ∷ xs) = rw (length-items f xs)

last_of-items :
    {A N : Type 0} (n : ℕ) (f : A → Json N) (xs : List A)
    → leb (length xs) n ≡ true
    → last_of n (items (list_json f xs)) ≡ items (list_json f xs)
last_of-items n f xs h =
    drop_none _ (items (list_json f xs)) (omega (arith, length-items f xs, leb→le (length xs) n h))

level_again :
    (N : Type 0) (b : Bool) → is_text {N = N} (codes "fatal") (some (str (level_text b))) ≡ b
level_again N true = refl
level_again N false = refl

known_level :
    {N : Type 0} (e : SafeEvent N) (sdk_version : Text) (b : Bool)
    → e.is_fatal ≡ b
    → is_known_level (get_field (codes "level") (to_sentry_event e sdk_version)) ≡ true
unfolding to_sentry_event get_field
known_level e sdk_version true h = rw h
known_level e sdk_version false h = rw h

module _ {N : Type 0} (δ : Doubles N) (ρ : Rules) (now : N) (allowed : List Text) where
  build-to_sentry_event :
      (e : SafeEvent N) (sdk_version : Text)
      → IsStable δ ρ now allowed e
      → build δ ρ (to_sentry_event e sdk_version) e.event_id now allowed e.breadcrumbs ≡ e
  unfolding build to_sentry_event get_field
  build-to_sentry_event e sdk_version h = rw (
    get_values e sdk_version,
    get_tags e sdk_version,
    get_contexts e sdk_version,
    get_release e sdk_version,
    get_dist e sdk_version,
    get_app e sdk_version,
    get_api e sdk_version,
    get_browser e sdk_version,
    route_again (safe_path ρ {N = N} (given_text e.route)) e.route h.route_stays,
    version_again e.app_version h.version_stays,
    get_route N e.route e.app_version,
    get_version N e.route e.app_version,
    string_of-text_json N e.release,
    string_of-text_json N e.dist,
    string_of-text_json N e.app_version,
    h.time_stays,
    level_again N e.is_fatal,
    h.message_stays,
    h.type_stays,
    not-not e.handled,
    h.environment_stays,
    h.release_stays,
    h.version_stays,
    h.dist_stays,
    h.route_stays,
    api_again δ e.api h.api_fits h.api_has_any,
    browser_again δ e.browser h.browser_fits,
    last_of-items 100 (λ f. obj (frame_fields f)) e.frames h.few_frames,
    safe_frames-list_json δ ρ e.frames h.frames_stay,
    tags_again δ ρ e.tags allowed,
    h.tags_stay,
  )

  is_supported-to_sentry_event :
      (e : SafeEvent N) (sdk_version : Text) → is_supported (to_sentry_event e sdk_version) ≡ true
  unfolding is_supported
  is_supported-to_sentry_event e sdk_version =
      rw (get_type e sdk_version) (known_level e sdk_version e.is_fatal refl)

  safe_breadcrumbs-to_sentry_event :
      (e : SafeEvent N) (sdk_version : Text)
      → IsStable δ ρ now allowed e
      → safe_breadcrumbs δ ρ now (last_of 50 (raw_breadcrumbs (to_sentry_event e sdk_version)))
        ≡ passed e.breadcrumbs
  unfolding raw_breadcrumbs
  safe_breadcrumbs-to_sentry_event e sdk_version h = rw (
    get_breadcrumbs e sdk_version,
    last_of-items 50 (λ b. obj (crumb_fields b)) e.breadcrumbs h.few_crumbs,
    safe_breadcrumbs-list_json δ ρ now e.breadcrumbs h.crumbs_stay,
  )

  passes-again :
      (e : SafeEvent N) → IsStable δ ρ now allowed e → pass_if δ ρ (safe_event δ ρ) e ≡ passed e
  passes-again e h = rw h.passes

  -- What the SDK sends of an event, `toSentryEvent` with any version of the SDK, the server
  -- sanitizes to the same event, under its id and with nothing refused, where the event passes the
  -- schema and the sanitizer would leave its own parts as they are: the replacements change none of
  -- its texts, its times and numbers are in range, its API context is not empty, and picking the
  -- allowed names from its tags gives all of them in their order.
  pub sanitize_event-to_sentry_event :
      (e : SafeEvent N) (sdk_version : Text)
      → IsStable δ ρ now allowed e
      → sanitize_event δ ρ (to_sentry_event e sdk_version) e.event_id now allowed ≡ passed e
  unfolding sanitize_event sanitize_with
  sanitize_event-to_sentry_event e sdk_version h =
      rw
        (
          is_supported-to_sentry_event e sdk_version,
          safe_breadcrumbs-to_sentry_event e sdk_version h,
        )
        (ap (pass_if δ ρ (safe_event δ ρ)) (build-to_sentry_event e sdk_version h)
          ∙ passes-again e h)
