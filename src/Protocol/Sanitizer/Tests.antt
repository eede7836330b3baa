-- ===== src/Protocol/Sanitizer/Tests.antt =====
-- Doubles that are natural numbers or not finite, and replacements that change nothing: an event, and one whose
-- breadcrumb has an array as its category.
use get_exception.Base.{
  ℕ, ◌+◌, ◌-◌, ◌*◌, ◌/◌, ◌^◌, ◌≤◌, if◌then◌else◌, arith, ◌≡◌, refl, Bool, true, false, ◌&&◌, leb,
  ◌===◌, list_eq, some, List, [], ◌∷◌, ◌==◌, length, codes,
}
use get_exception.Ingest.Http.{Text}
use get_exception.Protocol.Json.{Json, bool, num, str, arr, obj, nil, cons, Fields, end, field}
use get_exception.Protocol.Sanitizer.Texts.{Doubles, Rules, is_app_version}
use get_exception.Protocol.Sanitizer.Parts.{Checked, passed, refused, thrown}
use get_exception.Protocol.Sanitizer.Event.{SafeEvent, sanitize_with}
use get_exception.Protocol.Sanitizer.Schema.{sanitize_event}
use get_exception.Protocol.Sanitizer.Parts.{within}
use get_exception.Protocol.Sanitizer.Narrow.{DoubleLaws, fits_event}
use get_exception.Protocol.Sanitizer.Narrow.Whole.{sanitize_event-fits}

-- Numbers that round above 2 ^ 53, and the two values that are not finite.
pub data Double : Type 0 where
  finite : ℕ → Double
  infinite nan : Double

abbrev rounded : ℕ → Double
rounded k = if leb k (2 ^ 53) then finite k else finite (k / 2 * 2)

abbrev up_to : Double → Double → Bool
up_to (finite a) (finite b) = leb a b
up_to (finite a) infinite = true
up_to (finite a) nan = false
up_to infinite (finite b) = false
up_to infinite infinite = true
up_to infinite nan = false
up_to nan b = false

abbrev is_number : Double → Bool
is_number (finite a) = true
is_number infinite = false
is_number nan = false

abbrev added : Double → ℕ → Double
added (finite a) k = rounded (a + k)
added infinite k = infinite
added nan k = nan

abbrev reduced : Double → ℕ → Double
reduced (finite a) k = finite (a - k)
reduced infinite k = infinite
reduced nan k = nan

abbrev digits : Double → Text
digits (finite a) = (48 + a) ∷ []
digits infinite = codes "Infinity"
digits nan = codes "NaN"

abbrev pub doubles : Doubles Double
doubles = record {
  of_nat = rounded;
  le = up_to;
  is_integer = is_number;
  is_finite = is_number;
  plus = added;
  minus = reduced;
  to_text = digits;
}

abbrev pub plain : Rules
plain = record {
  url = λ t. some (codes "https:", t);
  decode = λ t. some t;
  path_emails = λ t. t;
  path_hashes = λ t. t;
  path_secrets = λ t. t;
  jwts = λ t. t;
  ansi = λ t. t;
  urls = λ f t. t;
  emails = λ t. t;
  bearers = λ t. t;
  secrets = λ t. t;
  addresses = λ t. t;
  hashes = λ t. t;
  is_uuid = λ t. length t == 36;
}

zero_up_to : (k : ℕ) → k ≤ 10000000 → up_to (rounded 0) (rounded k) ≡ true
zero_up_to k h = ground (arith, h)

between_finite :
    (n : Double) → within doubles (rounded 0) (rounded 300000) n ≡ true → is_number n ≡ true
between_finite (finite a) h = refl
between_finite infinite h = ground (arith, h)
between_finite nan h = ground (arith, h)

doubles-Laws : DoubleLaws doubles
doubles-Laws = record { zero_integer = refl; zero_le = zero_up_to; finite_between = between_finite }

abbrev pub event_id : Text
event_id = codes "0123456789abcdef0123456789abcdef"

abbrev pub tag_names : List Text
tag_names = codes "feature" ∷ codes "component" ∷ []

abbrev exception : Json Double
exception = obj (
    field (codes "type") (str (codes "TypeError")) (
      field (codes "value") (str (codes "x is undefined")) (
        field (codes "stacktrace")
          (obj (
            field (codes "frames")
              (arr (
                cons
                  (obj (
                    field (codes "filename") (str (codes "/app.js")) (
                      field (codes "lineno") (num (finite 12))
                        (field (codes "in_app") (bool false) end))))
                  nil))
              end))
          end)))

abbrev crumb_with : Json Double → Json Double
crumb_with category = obj (
    field (codes "category") category (
      field (codes "timestamp") (num (finite 999990)) (
        field (codes "data")
          (obj (
            field (codes "method") (str (codes "GET"))
              (field (codes "status_code") (num (finite 404)) end)))
          end)))

abbrev event_with : Json Double → Fields Double
event_with category = field (codes "level") (str (codes "fatal")) (
    field (codes "exception") (obj (field (codes "values") (arr (cons exception nil)) end)) (
      field (codes "breadcrumbs") (arr (cons (crumb_with category) nil)) (
        field (codes "tags")
          (obj (field (codes "feature") (num (finite 7)) (field (codes "other") (bool true) end)))
          end)))

abbrev is_passed : {A : Type 0} → Checked A → Bool
is_passed (passed a) = true
is_passed refused = false
is_passed thrown = false

abbrev has_tag : Text → Text → Checked (SafeEvent Double) → Bool
has_tag k t (passed e) = is_it e.tags
  where
    is_it : List (Text × Text) → Bool
    is_it ((j, u) ∷ []) = j === k && u === t
    is_it [] = false
    is_it (a ∷ b ∷ r) = false
has_tag k t refused = false
has_tag k t thrown = false

passes_event :
    has_tag (codes "feature") (codes "7") (
      sanitize_event doubles plain
        (event_with (str (codes "http")))
        event_id
        (finite 1000000)
        tag_names)
    ≡ true
unfolding sanitize_event
passes_event = refl

-- An array of the text http is a category for `includes`, but none for the schema.
throws_array :
    sanitize_event doubles plain
      (event_with (arr (cons (str (codes "http")) nil)))
      event_id
      (finite 1000000)
      tag_names
    ≡ thrown
unfolding sanitize_event
throws_array = refl

throws_object :
    sanitize_event doubles plain (event_with (obj end)) event_id (finite 1000000) tag_names ≡ thrown
unfolding sanitize_event
throws_object = refl

refuses_type :
    sanitize_event doubles plain
      (field (codes "type") (str (codes "transaction")) end)
      event_id
      (finite 1000000)
      tag_names
    ≡ refused
unfolding sanitize_event
refuses_type = refl

sanitize_event-fits_example :
    sanitize_event doubles plain
      (event_with (str (codes "http")))
      event_id
      (finite 1000000)
      tag_names
    ≡ sanitize_with doubles plain fits_event
        (event_with (str (codes "http")))
        event_id
        (finite 1000000)
        tag_names
sanitize_event-fits_example =
    sanitize_event-fits doubles plain doubles-Laws (event_with (str (codes "http"))) event_id
      (finite 1000000) tag_names refl

versions : List Bool
versions =
    is_app_version (codes "1.20.3")
    ∷ is_app_version (codes "1.0.0-rc.1+build.5")
    ∷ is_app_version (codes "01.0.0")
    ∷ is_app_version (codes "1.0")
    ∷ is_app_version (codes "1.0.0-01")
    ∷ []

versions_are : versions ≡ (true ∷ true ∷ false ∷ false ∷ false ∷ [])
unfolding versions is_app_version
versions_are = refl
