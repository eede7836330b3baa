-- ===== src/Protocol/Sanitizer/Narrow/Whole.antt =====
-- A whole event: the contexts and the texts that expressions restrict pass the schema.
use get_exception.Base.{
  ℕ, zero, suc, ◌-◌, ◌≤◌, ◌≡◌, refl, ap, Bool, true, false, ◌&&◌, leb, Option, none, some, List, [],
  ◌∷◌, length, take, drop, arith, list_eq, if◌then◌else◌, codes, tests,
}
use get_exception.Ingest.Http.{Text}
use get_exception.Protocol.Json.{Json, Fields}
use get_exception.Protocol.Envelope.{get_field, is_event_id, is_text}
use get_exception.Protocol.Sanitizer.Texts.{
  Doubles, Rules, string_of, is_commit, is_release_name, is_dist, is_code, is_app_version,
  version_or,
}
use get_exception.Protocol.Sanitizer.Parts.{
  Checked, passed, refused, thrown, ◌>>=◌, record_in, items_of, kept_if, is_in, is_integer_in,
}
use get_exception.Protocol.Sanitizer.Contexts.{
  api_reasons, browser_names, Breadcrumb, ApiContext, has_any, api_context, sanitize_api_context,
  browser_of, sanitize_browser_context,
}
use get_exception.Protocol.Sanitizer.Event.{
  last_of, environment_of, under, is_supported, exception_of, raw_breadcrumbs, app_field,
  safe_breadcrumbs, build, support, sanitize_with,
}
use get_exception.Protocol.Sanitizer.Schema.{
  optional, at_most, environments, api_context_ok, browser_context_ok, safe_event, sanitize_event,
}
use get_exception.Protocol.Sanitizer.Narrow.{DoubleLaws, fits_event}
use get_exception.Protocol.Sanitizer.Narrow.Parts.{
  Passes, optional-kept_if, optional-number_if, bounded_time_finite,
}
use get_exception.Protocol.Sanitizer.Narrow.Lists.{
  CrumbsAgree, safe_frames-agree, safe_breadcrumbs-agree, sanitize_tags-fit,
}

length-drop : {A : Type 0} (n : ℕ) (xs : List A) → length (drop n xs) ≡ length xs - n
length-drop zero xs = omega arith
length-drop (suc n) [] = omega arith
length-drop (suc n) (x ∷ xs) = omega (arith, length-drop n xs)

length-take : {A : Type 0} (n : ℕ) (xs : List A) → n ≤ length xs → length (take n xs) ≡ n
length-take zero xs h = omega arith
length-take (suc n) [] h = omega (arith, h)
length-take (suc n) (x ∷ xs) h = omega (arith, h, length-take n xs)

length-last_of : {A : Type 0} (n : ℕ) (xs : List A) → length (last_of n xs) ≤ n
length-last_of n xs = omega (arith, length-drop (length xs - n) xs)

is_commit-length : (t : Text) → is_commit t ≡ true → length t ≡ 41
is_commit-length [] h = ground (arith, h)
is_commit-length (c ∷ t) h = grind (tests, h)

is_release_name-short : (t : Text) → is_release_name t ≡ true → at_most 160 t ≡ true
is_release_name-short t h = grind (
  tests,
  h,
  is_commit-length (drop (length t - 41) t),
  length-drop (length t - 41) t,
  length-take (length t - 41) t,
)

is_dist-short : (t : Text) → is_dist t ≡ true → at_most 64 t ≡ true
is_dist-short t h = ground (arith, h)

version_or-fits : (o : Option Text) → optional is_app_version (version_or o) ≡ true
version_or-fits none = refl
version_or-fits (some t) = ground arith

known_environment :
    (a b : Bool)
    → is_in environments (
        some (if a then codes "production" else if b then codes "staging" else codes "development"))
      ≡ true
known_environment true b = refl
known_environment false true = refl
known_environment false false = refl

environment_of-known :
    {N : Type 0} (v : Option (Json N)) → is_in environments (some (environment_of v)) ≡ true
environment_of-known v =
    known_environment (is_text (codes "production") v) (is_text (codes "staging") v)

module _ {N : Type 0} (δ : Doubles N) where
  three : (a b c : Bool) → a ≡ true → b ≡ true → c ≡ true → (a && b && c) ≡ true
  three a b c h k l = rw (h, k, l)

  kept_if-api :
      (a : ApiContext N)
      → api_context_ok δ a ≡ true
      → optional (api_context_ok δ) (kept_if (has_any δ) (some a)) ≡ true
  kept_if-api a h = ground (arith, h)

  api_context-fits : (input : Fields N) → api_context_ok δ (api_context δ input) ≡ true
  unfolding api_context
  api_context-fits input =
      three _ _ _
        (optional-kept_if is_code is_code (string_of (get_field (codes "code") input)) λ t h. h)
        (optional-kept_if (λ t. is_in api_reasons (some t)) (λ t. is_in api_reasons (some t))
          (string_of (get_field (codes "reason") input)) λ t h. h)
        (optional-number_if δ (is_integer_in δ 100 599) (is_integer_in δ 100 599)
          (get_field (codes "status_code") input) λ n h. h)

  api_fits : (v : Option (Json N)) → optional (api_context_ok δ) (sanitize_api_context δ v) ≡ true
  unfolding sanitize_api_context
  api_fits v = kept_if-api (api_context δ (record_in v)) (api_context-fits (record_in v))

  browser_of-fits :
      (name : Option Text) (major : Option N)
      → optional (λ t. is_in browser_names (some t)) name ≡ true
      → optional (is_integer_in δ 1 9999) major ≡ true
      → optional (browser_context_ok δ) (browser_of δ name major) ≡ true
  browser_of-fits none major h k = refl
  browser_of-fits (some t) none h k = refl
  browser_of-fits (some t) (some n) h k = rw (h, k)

  browser_fits :
      (v : Option (Json N)) → optional (browser_context_ok δ) (sanitize_browser_context δ v) ≡ true
  unfolding sanitize_browser_context
  browser_fits v =
      browser_of-fits _ _
        (optional-kept_if _ _ (string_of (get_field (codes "name") (record_in v))) λ t h. h)
        (optional-number_if δ _ _ (get_field (codes "major") (record_in v)) λ n h. h)

sixteen-seven :
    (id time msg type env rel ver dist route api browser f f' fl t t' c c' cl : Bool)
    → time ≡ true
    → env ≡ true
    → rel ≡ true
    → ver ≡ true
    → dist ≡ true
    → (api && browser) ≡ true
    → f ≡ f'
    → fl ≡ true
    → t ≡ t'
    → c ≡ c'
    → cl ≡ true
    → (id && time && msg && type && env && rel && ver && dist && route && api && browser && f && fl
        && t && c && cl)
      ≡ (id && msg && type && route && f' && t' && c')
sixteen-seven id time msg type env rel ver dist route api browser f f' fl t t' c c' cl h1 h2 h3 h4
      h5 h6 h7 h8 h9 ha hb =
    ground (arith, h1, h2, h3, h4, h5, h6, h7, h8, h9, ha, hb)

le→leb : (a b : ℕ) → a ≤ b → leb a b ≡ true
le→leb a b h = grind (tests, h)

module _ {N : Type 0} (δ : Doubles N) (ρ : Rules) (laws : DoubleLaws δ) where
  build-fits :
      (input : Fields N) (event_id : Text) (now : N) (allowed : List Text) (vs : List (Json N))
      (crumbs : List (Breadcrumb N))
      → δ.is_finite now ≡ true
      → CrumbsAgree δ ρ laws (last_of 50 vs) crumbs
      → safe_event δ ρ (build δ ρ input event_id now allowed crumbs)
        ≡ fits_event (build δ ρ input event_id now allowed crumbs)
  unfolding safe_event fits_event build
  build-fits input event_id now allowed vs crumbs f h =
      let frames =
        last_of 100 (items_of (under (codes "stacktrace") (codes "frames") (exception_of input))) in
      sixteen-seven (is_event_id event_id) _ _ _ _ _ _ _ _ _ _ _ _ _ _ _ _ _ _
        (bounded_time_finite δ laws (get_field (codes "timestamp") input) now f)
        (environment_of-known (get_field (codes "environment") input))
        (optional-kept_if is_release_name (at_most 160)
          (string_of (get_field (codes "release") input)) is_release_name-short)
        (version_or-fits (string_of (app_field (codes "version") input)))
        (optional-kept_if is_dist (at_most 64) (string_of (get_field (codes "dist") input))
          is_dist-short)
        (rw (api_fits δ (under (codes "contexts") (codes "api") input))
          (browser_fits δ (under (codes "contexts") (codes "browser") input)))
        ((safe_frames-agree δ ρ laws frames).0)
        (le→leb _ 100 (
          omega (
            arith,
            (safe_frames-agree δ ρ laws frames).1,
            length-last_of 100
                (items_of (under (codes "stacktrace") (codes "frames") (exception_of input))),
          )))
        (sanitize_tags-fit δ ρ (get_field (codes "tags") input) allowed) h.0
        (le→leb _ 50 (omega (arith, h.1, length-last_of 50 vs)))

  bind-agrees {ℓ κ} :
      {A B : Type ℓ} (P : A → Type κ) (m : Checked A) (f g : A → Checked B)
      → Passes P m
      → ((a : A) → P a → f a ≡ g a)
      → (m >>= f) ≡ (m >>= g)
  bind-agrees P (passed a) f g h k = k a h
  bind-agrees P refused f g h k = refl
  bind-agrees P thrown f g h k = refl

  -- Let zero be an integer and no greater than any integer up to ten million, let the numbers between
  -- zero and 300000 be finite, as doubles are, and let the current time be a finite number. Then
  -- `sanitizeEvent` ends as it would if its last check, the whole schema, tested only this: the
  -- event's id, that no message, type, route, path, function name, tag or operation is too long
  -- after the replacements, and that the category and the method of each breadcrumb are texts. All
  -- else in the schema holds of every event that is built, whatever a client sent.
  pub sanitize_event-fits :
      (input : Fields N) (event_id : Text) (now : N) (allowed : List Text)
      → δ.is_finite now ≡ true
      → sanitize_event δ ρ input event_id now allowed
        ≡ sanitize_with δ ρ fits_event input event_id now allowed
  unfolding sanitize_event sanitize_with
  sanitize_event-fits input event_id now allowed f = ap (support δ ρ (is_supported input)) (
      bind-agrees (CrumbsAgree δ ρ laws (last_of 50 (raw_breadcrumbs input)))
        (safe_breadcrumbs δ ρ now (last_of 50 (raw_breadcrumbs input))) _ _
        (safe_breadcrumbs-agree δ ρ laws now (last_of 50 (raw_breadcrumbs input)) f)
        λ crumbs h. rw (build-fits input event_id now allowed (raw_breadcrumbs input) crumbs f h))
