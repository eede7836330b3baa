-- ===== src/Protocol/Sanitizer/Sentry/Contexts.antt =====
-- The contexts and the tags of an event that are sent and read again.
use get_exception.Base.{
  ◌≡◌, refl, subst, ◌∙◌, ap, Bool, true, false, not, ◌&&◌, Option, none, some, List, [], ◌∷◌, take,
  codes, list_eq, ◌===◌, arith, Bool-cases, inl, inr, if◌then◌else◌,
}
use get_exception.Base.Dict.{Dict, get}
use get_exception.Ingest.Http.{Text}
use get_exception.Protocol.Json.{obj, Fields, end}
use get_exception.Protocol.Envelope.{get_field}
use get_exception.Protocol.Sanitizer.Texts.{
  Doubles, Rules, is_tag, is_code, is_app_version, version_or,
}
use get_exception.Protocol.Sanitizer.Parts.{kept_if, path_or_none, is_in, is_integer_in, number_if}
use get_exception.Protocol.Sanitizer.Contexts.{
  ApiContext, BrowserContext, api_reasons, browser_names, is_forbidden, has_any, api_context,
  sanitize_api_context, sanitize_browser_context, tag_value, put_tag, add_tags, sanitize_tags,
}
use get_exception.Protocol.Sanitizer.Schema.{optional, api_context_ok, browser_context_ok}
use get_exception.Protocol.Sanitizer.Narrow.Parts.{and-left, and-right}
use get_exception.Protocol.Sanitizer.Sentry.{
  put, text_json, number_json, tags_json, api_json, browser_json,
}
use get_exception.Protocol.Sanitizer.Sentry.Parts.{get-put, get-put_ne, string_of-text_json}
use get_exception.Protocol.Sanitizer.Sentry.Stable.{given_text, pick_tags}

kept_if-fits : {A : Type 0} (p : A → Bool) (o : Option A) → optional p o ≡ true → kept_if p o ≡ o
kept_if-fits p none h = refl
kept_if-fits p (some a) h = rw h

three : (a b c : Bool) → (a && b && c) ≡ true → (a ≡ true) × (b ≡ true) × (c ≡ true)
three true true true h = (refl, refl, refl)
three true true false h = ground (arith, h)
three true false c h = ground (arith, h)
three false b c h = ground (arith, h)

module _ {N : Type 0} (δ : Doubles N) where
  number_if-number_json :
      (p : N → Bool) (o : Option N) → optional p o ≡ true → number_if δ p (number_json o) ≡ o
  number_if-number_json p none h = refl
  number_if-number_json p (some n) h = rw h

  abbrev api_fields : ApiContext N → Fields N
  api_fields a = put (codes "code") (text_json a.code) (
      put (codes "reason") (text_json a.reason)
        (put (codes "status_code") (number_json a.status_code) end))

  get_code : (a : ApiContext N) → get_field (codes "code") (api_fields a) ≡ text_json a.code
  unfolding get_field
  get_code a = get-put (codes "code") (text_json a.code) _ refl (
      get-put_ne (codes "code") (codes "reason") (text_json a.reason) _ refl
      ∙ get-put_ne (codes "code") (codes "status_code") (number_json a.status_code) end refl)

  get_reason : (a : ApiContext N) → get_field (codes "reason") (api_fields a) ≡ text_json a.reason
  unfolding get_field
  get_reason a =
      get-put_ne (codes "reason") (codes "code") (text_json a.code) _ refl
      ∙ get-put (codes "reason") (text_json a.reason) _ refl
          (get-put_ne (codes "reason") (codes "status_code") (number_json a.status_code) end refl)

  get_status :
      (a : ApiContext N)
      → get_field (codes "status_code") (api_fields a) ≡ number_json a.status_code
  unfolding get_field
  get_status a =
      get-put_ne (codes "status_code") (codes "code") (text_json a.code) _ refl
      ∙ get-put_ne (codes "status_code") (codes "reason") (text_json a.reason) _ refl
      ∙ get-put (codes "status_code") (number_json a.status_code) end refl refl

  api_context-api_fields :
      (a : ApiContext N) → api_context_ok δ a ≡ true → api_context δ (api_fields a) ≡ a
  unfolding api_context
  api_context-api_fields a h =
      let (c, r, s) =
        three (optional is_code a.code) (optional (λ t. is_in api_reasons (some t)) a.reason)
          (optional (is_integer_in δ 100 599) a.status_code) h in
      rw (
        get_code a,
        get_reason a,
        get_status a,
        string_of-text_json N a.code,
        string_of-text_json N a.reason,
        kept_if-fits is_code a.code c,
        kept_if-fits (λ t. is_in api_reasons (some t)) a.reason r,
        number_if-number_json (is_integer_in δ 100 599) a.status_code s,
      )

  api_context_none : sanitize_api_context δ none ≡ none
  unfolding sanitize_api_context api_context get_field
  api_context_none = refl

  pub api_again :
      (o : Option (ApiContext N))
      → optional (api_context_ok δ) o ≡ true
      → optional (has_any δ) o ≡ true
      → sanitize_api_context δ (api_json o) ≡ o
  unfolding sanitize_api_context
  api_again none h k = api_context_none
  api_again (some a) h k =
      ap (λ c. kept_if (has_any δ) (some c)) (api_context-api_fields a h) ∙ rw k

  pub browser_again :
      (o : Option (BrowserContext N))
      → optional (browser_context_ok δ) o ≡ true
      → sanitize_browser_context δ (browser_json o) ≡ o
  unfolding sanitize_browser_context get_field
  browser_again none h = refl
  browser_again (some b) h = rw (
    and-left (is_in browser_names (some b.name)) (is_integer_in δ 1 9999 b.major) h,
    and-right (is_in browser_names (some b.name)) (is_integer_in δ 1 9999 b.major) h,
  )

  get_field-tags_json :
      (k : Text) (tags : Dict Text Text)
      → get_field k (tags_json {N = N} tags) ≡ given_text (get tags k)
  unfolding get_field get
  get_field-tags_json k [] = refl
  get_field-tags_json k ((j, t) ∷ tags) = elim (Bool-cases (j === k)) [
    | inl e ↦ rw e
    | inr e ↦ rw (e, get_field-tags_json k tags)
  ]

  tag_value-given_text : (o : Option Text) → tag_value δ (given_text o) ≡ o
  tag_value-given_text none = refl
  tag_value-given_text (some t) = refl

module _ {N : Type 0} (δ : Doubles N) (ρ : Rules) where
  add_tags-pick_tags :
      (tags : Dict Text Text) (allowed : List Text) (picked : Dict Text Text)
      → add_tags δ ρ (tags_json tags) allowed picked ≡ pick_tags δ ρ tags allowed picked
  unfolding add_tags
  add_tags-pick_tags tags [] picked = refl
  add_tags-pick_tags tags (k ∷ allowed) picked =
      rw (get_field-tags_json δ k tags, tag_value-given_text δ (get tags k))
        (add_tags-pick_tags tags allowed
          (if is_tag k && not (is_forbidden k) then put_tag δ ρ k (get tags k) picked else picked))

  pub tags_again :
      (tags : Dict Text Text) (allowed : List Text)
      → sanitize_tags δ ρ (some (obj (tags_json tags))) allowed
        ≡ pick_tags δ ρ tags (take 50 allowed) []
  unfolding sanitize_tags
  tags_again tags allowed = add_tags-pick_tags tags (take 50 allowed) []

pub route_again : (o r : Option Text) → path_or_none o ≡ r → path_or_none r ≡ r
route_again none r h = subst (λ t. path_or_none t ≡ t) h refl
route_again (some []) r h = subst (λ t. path_or_none t ≡ t) h refl
route_again (some (c ∷ t)) r h = subst (λ t. path_or_none t ≡ t) h refl

pub version_again : (o : Option Text) → version_or o ≡ o → path_or_none o ≡ o
unfolding is_app_version
version_again none h = refl
version_again (some []) h = ground (arith, h)
version_again (some (c ∷ t)) h = refl
