-- ===== src/Protocol/Sanitizer/Event.antt =====
-- `sanitizeEvent`: an event built from what a client sent, part by part.
use get_exception.Base.{
  ℕ, ◌-◌, Bool, true, false, not, ◌&&◌, ◌||◌, list_eq, Option, none, some, List, [], ◌∷◌, length,
  drop, codes, if◌then◌else◌,
}
use get_exception.Base.Dict.{Dict}
use get_exception.Ingest.Http.{Text}
use get_exception.Protocol.Json.{Json, null, bool, num, str, arr, obj, Fields}
use get_exception.Protocol.Envelope.{record_of, get_field, or_else, is_text, is_present}
use get_exception.Protocol.Sanitizer.Texts.{
  Doubles, Rules, string_of, safe_path, scrub, is_release_name, is_dist, sanitize_app_version,
}
use get_exception.Protocol.Sanitizer.Parts.{
  Checked, passed, refused, thrown, ◌>>=◌, record_in, items_of, is_false, kept_if, path_or_none,
  integer, bounded_time,
}
use get_exception.Protocol.Sanitizer.Contexts.{
  Breadcrumb, ApiContext, BrowserContext, sanitize_tags, sanitize_breadcrumb, sanitize_api_context,
  sanitize_browser_context,
}

-- SafeFrame
pub record Frame (N : Type 0) : Type 0 where
  pub filename : Text
  pub function : Text
  pub lineno : N
  pub colno : N
  pub in_app : Bool
  pub debug_id : Option Text

pub record SafeEvent (N : Type 0) : Type 0 where
  pub event_id : Text
  pub timestamp : N
  pub is_fatal : Bool
  pub message : Text
  pub exception_type : Text
  pub handled : Bool
  pub environment : Text
  pub release : Option Text
  pub app_version : Option Text
  pub dist : Option Text
  pub route : Option Text
  pub api : Option (ApiContext N)
  pub browser : Option (BrowserContext N)
  pub frames : List (Frame N)
  pub tags : Dict Text Text
  pub breadcrumbs : List (Breadcrumb N)

abbrev pub last : {A : Type 0} → List A → Option A
last [] = none
last (a ∷ []) = some a
last (a ∷ b ∷ xs) = last (b ∷ xs)

-- `slice(-n)`
abbrev pub last_of : {A : Type 0} → ℕ → List A → List A
last_of n xs = drop (length xs - n) xs

abbrev pub or_text : Text → Text → Text
or_text [] u = u
or_text (c ∷ t) u = c ∷ t

abbrev is_list : {N : Type 0} → Option (Json N) → Bool
is_list none = false
is_list (some null) = false
is_list (some (bool b)) = false
is_list (some (num n)) = false
is_list (some (str t)) = false
is_list (some (arr xs)) = true
is_list (some (obj fs)) = false

-- `record(input[key])[name]`
abbrev pub under : {N : Type 0} → Text → Text → Fields N → Option (Json N)
under key name input = get_field name (record_in (get_field key input))

abbrev pub is_known_level : {N : Type 0} → Option (Json N) → Bool
is_known_level v = not (is_present v) || is_text (codes "error") v || is_text (codes "fatal") v

unfoldable pub is_supported : {N : Type 0} → Fields N → Bool
unfolding get_field
is_supported input =
    not (is_present (get_field (codes "type") input))
    && is_known_level (get_field (codes "level") input)

unfoldable pub exception_of : {N : Type 0} → Fields N → Fields N
unfolding get_field
exception_of input = record_in (last (items_of (under (codes "exception") (codes "values") input)))

unfoldable pub raw_breadcrumbs : {N : Type 0} → Fields N → List (Json N)
unfolding get_field
raw_breadcrumbs input =
    let direct = get_field (codes "breadcrumbs") input in
    items_of (if is_list direct then direct else under (codes "breadcrumbs") (codes "values") input)

unfoldable pub app_field : {N : Type 0} → Text → Fields N → Option (Json N)
unfolding get_field
app_field name input = under (codes "app") name (record_in (get_field (codes "contexts") input))

abbrev pub environment_of : {N : Type 0} → Option (Json N) → Text
environment_of v =
    if is_text (codes "production") v
    then codes "production"
    else if is_text (codes "staging") v
    then codes "staging"
    else codes "development"

module _ {N : Type 0} (δ : Doubles N) (ρ : Rules) where
  unfoldable pub frame_at : Text → Fields N → Frame N
  unfolding integer scrub get_field
  frame_at filename frame = record {
    filename = filename;
    function = scrub ρ 160 (get_field (codes "function") frame);
    lineno = integer δ (get_field (codes "lineno") frame);
    colno = integer δ (get_field (codes "colno") frame);
    in_app = not (is_false (get_field (codes "in_app") frame));
    debug_id = kept_if ρ.is_uuid (string_of (get_field (codes "debug_id") frame));
  }

  -- A frame without a path is left out.
  abbrev pub push_frame : Option Text → Fields N → List (Frame N) → List (Frame N)
  push_frame none frame frames = frames
  push_frame (some filename) frame frames = frame_at filename frame ∷ frames

  unfoldable pub safe_frames : List (Json N) → List (Frame N)
  unfolding frame_at safe_path get_field
  safe_frames [] = []
  safe_frames (v ∷ vs) =
      let frame = record_of v in
      push_frame (path_or_none (safe_path ρ (get_field (codes "filename") frame))) frame
        (safe_frames vs)

  abbrev pub push_crumb : Option (Breadcrumb N) → List (Breadcrumb N) → List (Breadcrumb N)
  push_crumb none crumbs = crumbs
  push_crumb (some c) crumbs = c ∷ crumbs

  unfoldable pub safe_breadcrumbs : N → List (Json N) → Checked (List (Breadcrumb N))
  unfolding sanitize_breadcrumb
  safe_breadcrumbs now [] = passed []
  safe_breadcrumbs now (v ∷ vs) = do
    c ← sanitize_breadcrumb δ ρ v now
    crumbs ← safe_breadcrumbs now vs
    passed (push_crumb c crumbs)

  unfoldable pub build : Fields N → Text → N → List Text → List (Breadcrumb N) → SafeEvent N
  unfolding bounded_time scrub exception_of get_field safe_frames sanitize_tags app_field safe_path
      sanitize_app_version sanitize_api_context sanitize_browser_context
  build input event_id now allowed crumbs =
      let exception = exception_of input in
      record {
        event_id = event_id;
        timestamp = bounded_time δ (get_field (codes "timestamp") input) now;
        is_fatal = is_text (codes "fatal") (get_field (codes "level") input);
        message =
            or_text
              (scrub ρ 1024 (
                or_else (get_field (codes "value") exception) (
                  or_else (get_field (codes "message") input)
                    (under (codes "logentry") (codes "formatted") input))))
              (codes "Unknown error");
        exception_type = or_text (scrub ρ 120 (get_field (codes "type") exception)) (codes "Error");
        handled = not (is_false (under (codes "mechanism") (codes "handled") exception));
        environment = environment_of (get_field (codes "environment") input);
        release = kept_if is_release_name (string_of (get_field (codes "release") input));
        app_version = sanitize_app_version (app_field (codes "version") input);
        dist = kept_if is_dist (string_of (get_field (codes "dist") input));
        route = path_or_none (safe_path ρ (app_field (codes "route") input));
        api = sanitize_api_context δ (under (codes "contexts") (codes "api") input);
        browser = sanitize_browser_context δ (under (codes "contexts") (codes "browser") input);
        frames =
            safe_frames
              (last_of 100 (items_of (under (codes "stacktrace") (codes "frames") exception)));
        tags = sanitize_tags δ ρ (get_field (codes "tags") input) allowed;
        breadcrumbs = crumbs;
      }

  abbrev pub pass_if : (SafeEvent N → Bool) → SafeEvent N → Checked (SafeEvent N)
  pass_if check e = if check e then passed e else thrown

  abbrev pub support : {A : Type 0} → Bool → Checked A → Checked A
  support b m = if b then m else refused

  -- `sanitizeEvent` for a given check of the event that it built.
  unfoldable pub sanitize_with :
      (SafeEvent N → Bool) → Fields N → Text → N → List Text → Checked (SafeEvent N)
  unfolding is_supported raw_breadcrumbs safe_breadcrumbs build
  sanitize_with check input event_id now allowed = support (is_supported input) (do
    crumbs ← safe_breadcrumbs now (last_of 50 (raw_breadcrumbs input))
    pass_if check (build input event_id now allowed crumbs))
