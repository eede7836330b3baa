-- ===== src/Protocol/Sanitizer/Sentry/Lookup.antt =====
-- The fields of an event in Sentry's shape, looked up where the sanitizer reads them.
use get_exception.Base.{◌≡◌, refl, ◌∙◌, false, ◌===◌, list_eq, Option, none, some, codes}
use get_exception.Ingest.Http.{Text}
use get_exception.Protocol.Json.{arr, obj, nil, cons, Fields, end, field}
use get_exception.Protocol.Envelope.{get_field}
use get_exception.Protocol.Sanitizer.Parts.{record_in}
use get_exception.Protocol.Sanitizer.Event.{SafeEvent}
use get_exception.Protocol.Sanitizer.Sentry.{
  put, text_json, list_json, tags_json, crumb_fields, app_of, app_json, api_json, browser_json,
  contexts_json, exception_fields, sentry_rest, to_sentry_event,
}
use get_exception.Protocol.Sanitizer.Sentry.Parts.{get-put, get-put_ne}

module _ {N : Type 0} (e : SafeEvent N) (sdk_version : Text) where
  abbrev input : Fields N
  input = to_sentry_event e sdk_version

  get_behind :
      (j : Text)
      → (codes "release" === j) ≡ false
      → (codes "dist" === j) ≡ false
      → get_field j (
          put
            (codes "release")
            (text_json e.release)
            (put (codes "dist") (text_json e.dist) (sentry_rest e sdk_version)))
        ≡ get_field j (sentry_rest e sdk_version)
  get_behind j a b = get-put_ne j (codes "release") _ _ a ∙ get-put_ne j (codes "dist") _ _ b

  pub get_type : get_field (codes "type") input ≡ none
  unfolding to_sentry_event get_field
  get_type = get_behind (codes "type") refl refl

  pub get_message : get_field (codes "message") input ≡ none
  unfolding to_sentry_event get_field
  get_message = get_behind (codes "message") refl refl

  pub get_logentry : get_field (codes "logentry") input ≡ none
  unfolding to_sentry_event get_field
  get_logentry = get_behind (codes "logentry") refl refl

  pub get_values :
      get_field (codes "exception") input
      ≡ some (obj (field (codes "values") (arr (cons (obj (exception_fields e)) nil)) end))
  unfolding to_sentry_event get_field
  get_values = get_behind (codes "exception") refl refl

  pub get_tags : get_field (codes "tags") input ≡ some (obj (tags_json e.tags))
  unfolding to_sentry_event get_field
  get_tags = get_behind (codes "tags") refl refl

  pub get_breadcrumbs :
      get_field (codes "breadcrumbs") input
      ≡ some (arr (list_json (λ b. obj (crumb_fields b)) e.breadcrumbs))
  unfolding to_sentry_event get_field
  get_breadcrumbs = get_behind (codes "breadcrumbs") refl refl

  pub get_contexts : get_field (codes "contexts") input ≡ some (obj (contexts_json e))
  unfolding to_sentry_event get_field
  get_contexts = get_behind (codes "contexts") refl refl

  pub get_release : get_field (codes "release") input ≡ text_json e.release
  unfolding to_sentry_event get_field
  get_release = get-put (codes "release") (text_json e.release) _ refl (
      get-put_ne (codes "release") (codes "dist") (text_json e.dist) (sentry_rest e sdk_version)
        refl)

  pub get_dist : get_field (codes "dist") input ≡ text_json e.dist
  unfolding to_sentry_event get_field
  get_dist =
      get-put_ne (codes "dist") (codes "release") (text_json e.release)
        (put (codes "dist") (text_json e.dist) (sentry_rest e sdk_version)) refl
      ∙ get-put (codes "dist") (text_json e.dist) (sentry_rest e sdk_version) refl refl

  pub get_app : get_field (codes "app") (contexts_json e) ≡ app_json e.route e.app_version
  unfolding get_field
  get_app = get-put (codes "app") (app_json e.route e.app_version) _ refl (
      get-put_ne (codes "app") (codes "api") (api_json e.api) _ refl
      ∙ get-put_ne (codes "app") (codes "browser") (browser_json e.browser) end refl)

  pub get_api : get_field (codes "api") (contexts_json e) ≡ api_json e.api
  unfolding get_field
  get_api =
      get-put_ne (codes "api") (codes "app") (app_json e.route e.app_version) _ refl
      ∙ get-put (codes "api") (api_json e.api) _ refl
          (get-put_ne (codes "api") (codes "browser") (browser_json e.browser) end refl)

  pub get_browser : get_field (codes "browser") (contexts_json e) ≡ browser_json e.browser
  unfolding get_field
  get_browser =
      get-put_ne (codes "browser") (codes "app") (app_json e.route e.app_version) _ refl
      ∙ get-put_ne (codes "browser") (codes "api") (api_json e.api) _ refl
      ∙ get-put (codes "browser") (browser_json e.browser) end refl refl

pub get_route :
    (N : Type 0) (route version : Option Text)
    → get_field (codes "route") (record_in (app_of {N = N} route version)) ≡ text_json route
unfolding get_field
get_route N none none = refl
get_route N none (some v) = refl
get_route N (some r) none = refl
get_route N (some r) (some v) = refl

pub get_version :
    (N : Type 0) (route version : Option Text)
    → get_field (codes "version") (record_in (app_of {N = N} route version)) ≡ text_json version
unfolding get_field
get_version N none none = refl
get_version N none (some v) = refl
get_version N (some r) none = refl
get_version N (some r) (some v) = refl
