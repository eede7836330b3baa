-- ===== src/Protocol/Sanitizer/Sentry/Crumbs.antt =====
-- Breadcrumbs that are sent and read again.
use get_exception.Base.{
  ◌≡◌, refl, ◌∙◌, true, false, ◌===◌, list_eq, Option, none, some, List, [], ◌∷◌, codes, arith, All,
}
use get_exception.Ingest.Http.{Text}
use get_exception.Protocol.Json.{Json, null, bool, num, str, arr, obj, Fields, end}
use get_exception.Protocol.Envelope.{get_field, or_else}
use get_exception.Protocol.Sanitizer.Texts.{Doubles, Rules}
use get_exception.Protocol.Sanitizer.Parts.{passed, items, named, to_string}
use get_exception.Protocol.Sanitizer.Contexts.{
  Breadcrumb, crumb, sanitize_breadcrumb, categories, methods,
}
use get_exception.Protocol.Sanitizer.Event.{safe_breadcrumbs}
use get_exception.Protocol.Sanitizer.Schema.{is_enum, optional}
use get_exception.Protocol.Sanitizer.Sentry.Stable.{CrumbIsStable}
use get_exception.Protocol.Sanitizer.Sentry.{
  put, text_json, number_json, list_json, crumb_data, crumb_fields,
}
use get_exception.Protocol.Sanitizer.Sentry.Parts.{get-put, get-put_ne, string_of-text_json}

-- The data of a breadcrumb, looked up through the fields that may be missing.
module _ {N : Type 0} (path method status_code duration operation : Option (Json N)) where
  abbrev data_from_duration : Fields N
  data_from_duration = put (codes "duration") duration (put (codes "operation") operation end)

  abbrev data_from_method : Fields N
  data_from_method =
      put (codes "method") method (put (codes "status_code") status_code data_from_duration)

  abbrev whole_data : Fields N
  whole_data = put (codes "path") path data_from_method

  get_from_method :
      (j : Text)
      → (codes "method" === j) ≡ false
      → (codes "status_code" === j) ≡ false
      → get_field j data_from_method ≡ get_field j data_from_duration
  get_from_method j a b =
      get-put_ne j (codes "method") method _ a ∙ get-put_ne j (codes "status_code") status_code _ b

  get_from_duration :
      (j : Text)
      → (codes "duration" === j) ≡ false
      → (codes "operation" === j) ≡ false
      → get_field j data_from_duration ≡ none
  unfolding get_field
  get_from_duration j a b =
      get-put_ne j (codes "duration") duration _ a ∙ get-put_ne j (codes "operation") operation _ b

  get-path : get_field (codes "path") whole_data ≡ path
  get-path =
      get-put (codes "path") path _ refl
        (get_from_method (codes "path") refl refl ∙ get_from_duration (codes "path") refl refl)

  get_url : get_field (codes "url") whole_data ≡ none
  get_url =
      get-put_ne (codes "url") (codes "path") path _ refl
      ∙ get_from_method (codes "url") refl refl
      ∙ get_from_duration (codes "url") refl refl

  get_to : get_field (codes "to") whole_data ≡ none
  get_to =
      get-put_ne (codes "to") (codes "path") path _ refl
      ∙ get_from_method (codes "to") refl refl
      ∙ get_from_duration (codes "to") refl refl

  get-method : get_field (codes "method") whole_data ≡ method
  get-method =
      get-put_ne (codes "method") (codes "path") path _ refl
      ∙ get-put (codes "method") method _ refl (
          get-put_ne (codes "method") (codes "status_code") status_code _ refl
          ∙ get_from_duration (codes "method") refl refl)

  get-status_code : get_field (codes "status_code") whole_data ≡ status_code
  get-status_code =
      get-put_ne (codes "status_code") (codes "path") path _ refl
      ∙ get-put_ne (codes "status_code") (codes "method") method _ refl
      ∙ get-put (codes "status_code") status_code _ refl
          (get_from_duration (codes "status_code") refl refl)

  get-duration : get_field (codes "duration") whole_data ≡ duration
  unfolding get_field
  get-duration =
      get-put_ne (codes "duration") (codes "path") path _ refl
      ∙ get_from_method (codes "duration") refl refl
      ∙ get-put (codes "duration") duration _ refl
          (get-put_ne (codes "duration") (codes "operation") operation end refl)

  get-operation : get_field (codes "operation") whole_data ≡ operation
  unfolding get_field
  get-operation =
      get-put_ne (codes "operation") (codes "path") path _ refl
      ∙ get_from_method (codes "operation") refl refl
      ∙ get-put_ne (codes "operation") (codes "duration") duration _ refl
      ∙ get-put (codes "operation") operation end refl refl

or_else-text_json :
    (N : Type 0) (o : Option Text) → or_else (text_json {N = N} o) none ≡ text_json o
or_else-text_json N none = refl
or_else-text_json N (some t) = refl

module _ {N : Type 0} (δ : Doubles N) where
  named-known :
      (names : List Text) (v : Json N)
      → is_enum names v ≡ true
      → named δ names (some v) ≡ passed (some v)
  unfolding named to_string
  named-known names null h = ground (arith, h)
  named-known names (bool b) h = ground (arith, h)
  named-known names (num n) h = ground (arith, h)
  named-known names (str t) h = rw h
  named-known names (arr xs) h = ground (arith, h)
  named-known names (obj fs) h = ground (arith, h)

  named-optional :
      (names : List Text) (o : Option (Json N))
      → optional (is_enum names) o ≡ true
      → named δ names o ≡ passed o
  unfolding named
  named-optional names none h = refl
  named-optional names (some v) h = named-known names v h

module _ {N : Type 0} (δ : Doubles N) (ρ : Rules) (now : N) where
  crumb-crumb_data :
      (b : Breadcrumb N)
      → CrumbIsStable δ ρ now b
      → crumb δ ρ (crumb_fields b) (crumb_data b) now b.category b.method ≡ b
  unfolding crumb get_field
  crumb-crumb_data b h =
      let path = text_json {N = N} b.path in
      let status = number_json b.status_code in
      let duration = number_json b.duration in
      let operation = text_json {N = N} b.operation in
      rw (
        get-path path b.method status duration operation,
        get_url path b.method status duration operation,
        get_to path b.method status duration operation,
        or_else-text_json N b.path,
        get-status_code path b.method status duration operation,
        get-duration path b.method status duration operation,
        get-operation path b.method status duration operation,
        string_of-text_json N b.operation,
        h.timestamp_stays,
        h.crumb_path_stays,
        h.status_stays,
        h.duration_stays,
        h.operation_stays,
      )

  sanitize_breadcrumb-crumb_fields :
      (b : Breadcrumb N)
      → CrumbIsStable δ ρ now b
      → sanitize_breadcrumb δ ρ (obj (crumb_fields b)) now ≡ passed (some b)
  unfolding sanitize_breadcrumb get_field
  sanitize_breadcrumb-crumb_fields b h = rw (
    named-known δ categories b.category h.category_known,
    get-method (text_json b.path) b.method (number_json b.status_code) (number_json b.duration)
        (text_json b.operation),
    named-optional δ methods b.method h.method_known,
    crumb-crumb_data b h,
  )

  pub safe_breadcrumbs-list_json :
      (bs : List (Breadcrumb N))
      → All (CrumbIsStable δ ρ now) bs
      → safe_breadcrumbs δ ρ now (items (list_json (λ b. obj (crumb_fields b)) bs)) ≡ passed bs
  unfolding safe_breadcrumbs
  safe_breadcrumbs-list_json [] h = refl
  safe_breadcrumbs-list_json (b ∷ bs) (h, hs) =
      rw (sanitize_breadcrumb-crumb_fields b h, safe_breadcrumbs-list_json bs hs)
