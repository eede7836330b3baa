-- ===== src/Protocol/Sanitizer/Sentry/Stable.antt =====
-- Events that the sanitizer would leave as they are, said of their own parts.
use get_exception.Base.{
  ◌≡◌, true, not, ◌&&◌, leb, Option, none, some, List, [], ◌∷◌, length, take, codes, All, list_eq,
  if◌then◌else◌,
}
use get_exception.Base.Dict.{Dict, get}
use get_exception.Ingest.Http.{Text}
use get_exception.Protocol.Json.{Json, str, num}
use get_exception.Protocol.Sanitizer.Texts.{
  Doubles, Rules, safe_path, scrub, is_tag, is_release_name, is_dist, version_or,
}
use get_exception.Protocol.Sanitizer.Parts.{
  kept_if, path_or_none, within, number_if, integer, bounded_time,
}
use get_exception.Protocol.Sanitizer.Contexts.{
  Breadcrumb, status_of, operation_of, categories, methods, has_any, put_tag, is_forbidden,
}
use get_exception.Protocol.Sanitizer.Event.{Frame, SafeEvent, or_text, environment_of}
use get_exception.Protocol.Sanitizer.Schema.{
  is_enum, optional, safe_event, api_context_ok, browser_context_ok,
}

abbrev pub given_text : {N : Type 0} → Option Text → Option (Json N)
given_text none = none
given_text (some t) = some (str t)

abbrev pub given_number : {N : Type 0} → Option N → Option (Json N)
given_number none = none
given_number (some n) = some (num n)

module _ {N : Type 0} (δ : Doubles N) (ρ : Rules) where
  -- What `sanitizeTags` would take of these tags: those of the names in turn, scrubbed.
  abbrev pub pick_tags : Dict Text Text → List Text → Dict Text Text → Dict Text Text
  pick_tags tags [] picked = picked
  pick_tags tags (k ∷ allowed) picked =
      pick_tags tags allowed
        (if is_tag k && not (is_forbidden k) then put_tag δ ρ k (get tags k) picked else picked)

  -- A frame that the sanitizer would leave as it is.
  pub record FrameIsStable (f : Frame N) : Type 0 where
    pub path_stays : path_or_none (safe_path ρ {N = N} (some (str f.filename))) ≡ some f.filename
    pub function_stays : scrub ρ {N = N} 160 (some (str f.function)) ≡ f.function
    pub lineno_stays : integer δ (some (num f.lineno)) ≡ f.lineno
    pub colno_stays : integer δ (some (num f.colno)) ≡ f.colno
    pub debug_id_stays : kept_if ρ.is_uuid f.debug_id ≡ f.debug_id

module _ {N : Type 0} (δ : Doubles N) (ρ : Rules) (now : N) where
  -- A breadcrumb that the sanitizer would leave as it is.
  pub record CrumbIsStable (b : Breadcrumb N) : Type 0 where
    pub category_known : is_enum categories b.category ≡ true
    pub timestamp_stays : bounded_time δ (some (num b.timestamp)) now ≡ b.timestamp
    pub crumb_path_stays : path_or_none (safe_path ρ {N = N} (given_text b.path)) ≡ b.path
    pub method_known : optional (is_enum methods) b.method ≡ true
    pub status_stays : status_of δ (given_number b.status_code) ≡ b.status_code
    pub duration_stays :
        number_if δ (within δ (δ.of_nat 0) (δ.of_nat 300000)) (given_number b.duration) ≡ b.duration
    pub operation_stays : operation_of δ ρ b.operation ≡ b.operation

module _ {N : Type 0} (δ : Doubles N) (ρ : Rules) (now : N) (allowed : List Text) where
  -- An event of which the sanitizer would leave every part as it is.
  pub record IsStable (e : SafeEvent N) : Type 0 where
    pub passes : safe_event δ ρ e ≡ true
    pub time_stays : bounded_time δ (some (num e.timestamp)) now ≡ e.timestamp
    pub message_stays :
        or_text (scrub ρ {N = N} 1024 (some (str e.message))) (codes "Unknown error") ≡ e.message
    pub type_stays :
        or_text (scrub ρ {N = N} 120 (some (str e.exception_type))) (codes "Error")
        ≡ e.exception_type
    pub environment_stays : environment_of {N = N} (some (str e.environment)) ≡ e.environment
    pub release_stays : kept_if is_release_name e.release ≡ e.release
    pub version_stays : version_or e.app_version ≡ e.app_version
    pub dist_stays : kept_if is_dist e.dist ≡ e.dist
    pub route_stays : path_or_none (safe_path ρ {N = N} (given_text e.route)) ≡ e.route
    pub api_fits : optional (api_context_ok δ) e.api ≡ true
    pub api_has_any : optional (has_any δ) e.api ≡ true
    pub browser_fits : optional (browser_context_ok δ) e.browser ≡ true
    pub tags_stay : pick_tags δ ρ e.tags (take 50 allowed) [] ≡ e.tags
    pub frames_stay : All (FrameIsStable δ ρ) e.frames
    pub few_frames : leb (length e.frames) 100 ≡ true
    pub crumbs_stay : All (CrumbIsStable δ ρ now) e.breadcrumbs
    pub few_crumbs : leb (length e.breadcrumbs) 50 ≡ true
