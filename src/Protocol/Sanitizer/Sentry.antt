-- ===== src/Protocol/Sanitizer/Sentry.antt =====
-- `toSentryEvent`: a safe event as an object in Sentry's shape. A field that is undefined is left
-- out, as JSON.stringify leaves it out.
pub mod Parts
pub mod Stable
pub mod Crumbs
pub mod Contexts
pub mod Lookup
pub mod RoundTrip
pub mod Tests
use get_exception.Base.{
  ℕ, Bool, true, false, ◌||◌, Option, none, some, List, [], ◌∷◌, codes, if◌then◌else◌,
}
use get_exception.Base.Dict.{Dict}
use get_exception.Ingest.Http.{Text}
use get_exception.Protocol.Json.{
  Json, null, bool, num, str, arr, obj, Items, nil, cons, Fields, end, field,
}
use get_exception.Protocol.Sanitizer.Parts.{path_or_none}
use get_exception.Protocol.Sanitizer.Contexts.{Breadcrumb, ApiContext, BrowserContext}
use get_exception.Protocol.Sanitizer.Event.{Frame, SafeEvent}

abbrev pub put : {N : Type 0} → Text → Option (Json N) → Fields N → Fields N
put k none fs = fs
put k (some v) fs = field k v fs

abbrev pub text_json : {N : Type 0} → Option Text → Option (Json N)
text_json none = none
text_json (some t) = some (str t)

abbrev pub number_json : {N : Type 0} → Option N → Option (Json N)
number_json none = none
number_json (some n) = some (num n)

abbrev pub list_json : {A N : Type 0} → (A → Json N) → List A → Items N
list_json f [] = nil
list_json f (a ∷ xs) = cons (f a) (list_json f xs)

abbrev pub tags_json : {N : Type 0} → Dict Text Text → Fields N
tags_json [] = end
tags_json ((k, t) ∷ tags) = field k (str t) (tags_json tags)

abbrev pub frame_fields : {N : Type 0} → Frame N → Fields N
frame_fields f = field (codes "filename") (str f.filename) (
    field (codes "function") (str f.function) (
      field (codes "lineno") (num f.lineno) (
        field (codes "colno") (num f.colno) (
          field (codes "in_app") (bool f.in_app)
            (put (codes "debug_id") (text_json f.debug_id) end)))))

abbrev pub crumb_data : {N : Type 0} → Breadcrumb N → Fields N
crumb_data b = put (codes "path") (text_json b.path) (
    put (codes "method") b.method (
      put (codes "status_code") (number_json b.status_code) (
        put (codes "duration") (number_json b.duration)
          (put (codes "operation") (text_json b.operation) end))))

abbrev pub crumb_fields : {N : Type 0} → Breadcrumb N → Fields N
crumb_fields b =
    field (codes "category") b.category
      (field (codes "timestamp") (num b.timestamp) (field (codes "data") (obj (crumb_data b)) end))

abbrev pub app_of : {N : Type 0} → Option Text → Option Text → Option (Json N)
app_of none none = none
app_of none (some v) = some (obj (field (codes "version") (str v) end))
app_of (some r) none = some (obj (field (codes "route") (str r) end))
app_of (some r) (some v) =
    some (obj (field (codes "route") (str r) (field (codes "version") (str v) end)))

-- `route` and `version`, if the event has one of them that is not empty.
abbrev pub app_json : {N : Type 0} → Option Text → Option Text → Option (Json N)
app_json route version = app_of (path_or_none route) (path_or_none version)

abbrev pub api_json : {N : Type 0} → Option (ApiContext N) → Option (Json N)
api_json none = none
api_json (some a) = some (
    obj (
      put (codes "code") (text_json a.code) (
        put (codes "reason") (text_json a.reason)
          (put (codes "status_code") (number_json a.status_code) end))))

abbrev pub browser_json : {N : Type 0} → Option (BrowserContext N) → Option (Json N)
browser_json none = none
browser_json (some b) =
    some (obj (field (codes "name") (str b.name) (field (codes "major") (num b.major) end)))

abbrev pub contexts_json : {N : Type 0} → SafeEvent N → Fields N
contexts_json e =
    put (codes "app") (app_json e.route e.app_version)
      (put (codes "api") (api_json e.api) (put (codes "browser") (browser_json e.browser) end))

abbrev pub exception_fields : {N : Type 0} → SafeEvent N → Fields N
exception_fields e = field (codes "type") (str e.exception_type) (
    field (codes "value") (str e.message) (
      field (codes "mechanism")
        (obj (
          field (codes "type") (str (codes "generic"))
            (field (codes "handled") (bool e.handled) end)))
        (field (codes "stacktrace")
          (obj (field (codes "frames") (arr (list_json (λ f. obj (frame_fields f)) e.frames)) end))
          end)))

abbrev pub level_text : Bool → Text
level_text is_fatal = if is_fatal then codes "fatal" else codes "error"

-- What follows the release and the dist.
abbrev pub sentry_rest : {N : Type 0} → SafeEvent N → Text → Fields N
sentry_rest e sdk_version =
    field (codes "sdk")
      (obj (
        field (codes "name") (str (codes "getexception.javascript.browser"))
          (field (codes "version") (str sdk_version) end)))
      (field (codes "exception")
        (obj (field (codes "values") (arr (cons (obj (exception_fields e)) nil)) end))
        (field (codes "tags") (obj (tags_json e.tags)) (
          field (codes "breadcrumbs") (arr (list_json (λ b. obj (crumb_fields b)) e.breadcrumbs))
            (field (codes "contexts") (obj (contexts_json e)) end))))

unfoldable pub to_sentry_event : {N : Type 0} → SafeEvent N → Text → Fields N
to_sentry_event e sdk_version = field (codes "event_id") (str e.event_id) (
    field (codes "timestamp") (num e.timestamp) (
      field (codes "platform") (str (codes "javascript")) (
        field (codes "level") (str (level_text e.is_fatal)) (
          field (codes "environment") (str e.environment) (
            put (codes "release") (text_json e.release)
              (put (codes "dist") (text_json e.dist) (sentry_rest e sdk_version)))))))
