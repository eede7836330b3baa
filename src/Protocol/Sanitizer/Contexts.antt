-- ===== src/Protocol/Sanitizer/Contexts.antt =====
-- Tags, breadcrumbs, and the contexts of diagnostics.ts.
use get_exception.Base.{
  Bool, true, false, not, ◌&&◌, ◌||◌, list_eq, Option, none, some, List, [], ◌∷◌, take, codes,
  if◌then◌else◌,
}
use get_exception.Base.Dict.{Dict, set}
use get_exception.Ingest.Http.{Text}
use get_exception.Protocol.Json.{Json, null, bool, num, str, arr, obj, Fields}
use get_exception.Protocol.Envelope.{record_of, get_field, or_else}
use get_exception.Protocol.Sanitizer.Texts.{
  Doubles, Rules, string_of, safe_path, scrub, is_tag, is_code,
}
use get_exception.Protocol.Sanitizer.Parts.{
  Checked, passed, ◌>>=◌, record_in, is_in, kept_if, path_or_none, within, is_integer_in, number_if,
  integer, bounded_time, named, text_of_bool,
}

abbrev pub is_forbidden : Text → Bool
is_forbidden k = is_in (codes "constructor" ∷ codes "prototype" ∷ codes "__proto__" ∷ []) (some k)

abbrev pub categories : List Text
categories = codes "navigation" ∷ codes "http" ∷ codes "manual" ∷ []

abbrev pub methods : List Text
methods =
    codes "GET"
    ∷ codes "POST"
    ∷ codes "PUT"
    ∷ codes "PATCH"
    ∷ codes "DELETE"
    ∷ codes "HEAD"
    ∷ codes "OPTIONS"
    ∷ []

abbrev pub api_reasons : List Text
api_reasons =
    codes "network_error"
    ∷ codes "timeout"
    ∷ codes "aborted"
    ∷ codes "unauthorized"
    ∷ codes "forbidden"
    ∷ codes "not_found"
    ∷ codes "validation_error"
    ∷ codes "conflict"
    ∷ codes "rate_limited"
    ∷ codes "server_error"
    ∷ []

abbrev pub browser_names : List Text
browser_names =
    codes "Chrome"
    ∷ codes "Edge"
    ∷ codes "Firefox"
    ∷ codes "Safari"
    ∷ codes "Opera"
    ∷ codes "Samsung Internet"
    ∷ []

-- SafeBreadcrumb. The category and the method are kept as they came.
pub record Breadcrumb (N : Type 0) : Type 0 where
  pub category : Json N
  pub timestamp : N
  pub path : Option Text
  pub method : Option (Json N)
  pub status_code : Option N
  pub duration : Option N
  pub operation : Option Text

pub record ApiContext (N : Type 0) : Type 0 where
  pub code : Option Text
  pub reason : Option Text
  pub status_code : Option N

pub record BrowserContext (N : Type 0) : Type 0 where
  pub name : Text
  pub major : N

abbrev is_some : {A : Type 0} → Option A → Bool
is_some none = false
is_some (some x) = true

module _ {N : Type 0} (δ : Doubles N) where
  -- The status that a breadcrumb keeps, of a number that `integer` keeps.
  unfoldable pub status_of : Option (Json N) → Option N
  unfolding integer
  status_of v =
      if within δ (δ.of_nat 100) (δ.of_nat 599) (integer δ v) then some (integer δ v) else none

  abbrev tag_text : Json N → Option Text
  tag_text null = none
  tag_text (bool b) = some (text_of_bool b)
  tag_text (num n) = some (δ.to_text n)
  tag_text (str t) = some t
  tag_text (arr xs) = none
  tag_text (obj fs) = none

  abbrev pub tag_value : Option (Json N) → Option Text
  tag_value none = none
  tag_value (some v) = tag_text v

  abbrev pub has_any : ApiContext N → Bool
  has_any a = is_some a.code || is_some a.reason || is_some a.status_code

  unfoldable pub api_context : Fields N → ApiContext N
  unfolding get_field
  api_context input = record {
    code = kept_if is_code (string_of (get_field (codes "code") input));
    reason =
        kept_if (λ t. is_in api_reasons (some t)) (string_of (get_field (codes "reason") input));
    status_code = number_if δ (is_integer_in δ 100 599) (get_field (codes "status_code") input);
  }

  unfoldable pub sanitize_api_context : Option (Json N) → Option (ApiContext N)
  unfolding api_context
  sanitize_api_context v = kept_if has_any (some (api_context (record_in v)))

  abbrev pub browser_of : Option Text → Option N → Option (BrowserContext N)
  browser_of none major = none
  browser_of (some name) none = none
  browser_of (some name) (some major) = some (record { name = name; major = major })

  unfoldable pub sanitize_browser_context : Option (Json N) → Option (BrowserContext N)
  unfolding get_field
  sanitize_browser_context v =
      let input = record_in v in
      browser_of
        (kept_if (λ t. is_in browser_names (some t)) (string_of (get_field (codes "name") input)))
        (number_if δ (is_integer_in δ 1 9999) (get_field (codes "major") input))

module _ {N : Type 0} (δ : Doubles N) (ρ : Rules) where
  abbrev pub put_tag : Text → Option Text → Dict Text Text → Dict Text Text
  put_tag k none tags = tags
  put_tag k (some t) tags = set tags k (scrub ρ {N = N} 120 (some (str t)))

  unfoldable pub add_tags : Fields N → List Text → Dict Text Text → Dict Text Text
  unfolding get_field set scrub
  add_tags input [] tags = tags
  add_tags input (k ∷ allowed) tags = add_tags input allowed (
      if is_tag k && not (is_forbidden k)
      then put_tag k (tag_value δ (get_field k input)) tags
      else tags)

  unfoldable pub sanitize_tags : Option (Json N) → List Text → Dict Text Text
  unfolding add_tags
  sanitize_tags v allowed = add_tags (record_in v) (take 50 allowed) []

  abbrev pub operation_of : Option Text → Option Text
  operation_of none = none
  operation_of (some t) = some (scrub ρ {N = N} 120 (some (str t)))

  unfoldable pub crumb : Fields N → Fields N → N → Json N → Option (Json N) → Breadcrumb N
  unfolding bounded_time status_of safe_path get_field scrub
  crumb input data_of now c m = record {
    category = c;
    timestamp = bounded_time δ (get_field (codes "timestamp") input) now;
    path = path_or_none (
        safe_path ρ (
          or_else (get_field (codes "path") data_of)
            (or_else (get_field (codes "url") data_of) (get_field (codes "to") data_of))));
    method = m;
    status_code = status_of δ (get_field (codes "status_code") data_of);
    duration =
        number_if δ (within δ (δ.of_nat 0) (δ.of_nat 300000))
          (get_field (codes "duration") data_of);
    operation = operation_of (string_of (get_field (codes "operation") data_of));
  }

  abbrev pub with_category :
      Fields N → Fields N → N → Option (Json N) → Checked (Option (Breadcrumb N))
  with_category input data_of now none = passed none
  with_category input data_of now (some c) = do
    m ← named δ methods (get_field (codes "method") data_of)
    passed (some (crumb input data_of now c m))

  -- sanitizeBreadcrumb; `none` is a breadcrumb that is left out.
  unfoldable pub sanitize_breadcrumb : Json N → N → Checked (Option (Breadcrumb N))
  unfolding named crumb get_field
  sanitize_breadcrumb v now =
      let input = record_of v in
      let data_of = record_in (get_field (codes "data") input) in
      do
        c ← named δ categories (get_field (codes "category") input)
        with_category input data_of now c
