-- ===== src/Protocol/Sanitizer/Texts.antt =====
-- `scrub`, `safePath`, and the tests of names and versions.
use get_exception.Base.{
  ℕ, ◌-◌, min, Bool, true, false, not, ◌&&◌, ◌||◌, ◌==◌, leb, ltb, ◌===◌, list_eq, Option, none,
  some, List, [], ◌∷◌, length, take, drop, filter, map, all, codes, if◌then◌else◌,
}
use get_exception.Protocol.Json.{Json, null, bool, num, str, arr, obj}
use get_exception.Ingest.Http.{Text, split, is_hex}

-- What the language does with doubles.
pub record Doubles (N : Type 0) : Type 0 where
  pub of_nat : ℕ → N
  pub le : N → N → Bool
  pub is_integer : N → Bool
  pub is_finite : N → Bool
  pub plus : N → ℕ → N
  pub minus : N → ℕ → N
  pub to_text : N → Text

-- The replacements, `decodeURIComponent` and the check of a UUID. `url` gives the protocol and the
-- path of a URL, and `urls` replaces every URL of a text.
pub record Rules : Type 0 where
  pub url : Text → Option (Text × Text)
  pub decode : Text → Option Text
  pub path_emails : Text → Text
  pub path_hashes : Text → Text
  pub path_secrets : Text → Text
  pub jwts : Text → Text
  pub ansi : Text → Text
  pub urls : (Text → Text) → Text → Text
  pub emails : Text → Text
  pub bearers : Text → Text
  pub secrets : Text → Text
  pub addresses : Text → Text
  pub hashes : Text → Text
  pub is_uuid : Text → Bool

abbrev is_control : ℕ → Bool
is_control c = leb c 31 || c == 127

abbrev blank : ℕ → ℕ
blank c = if is_control c then 32 else c

abbrev pub string_or_empty : {N : Type 0} → Option (Json N) → Text
string_or_empty none = []
string_or_empty (some null) = []
string_or_empty (some (bool b)) = []
string_or_empty (some (num n)) = []
string_or_empty (some (str t)) = t
string_or_empty (some (arr xs)) = []
string_or_empty (some (obj fs)) = []

abbrev pub string_of : {N : Type 0} → Option (Json N) → Option Text
string_of none = none
string_of (some null) = none
string_of (some (bool b)) = none
string_of (some (num n)) = none
string_of (some (str t)) = some t
string_of (some (arr xs)) = none
string_of (some (obj fs)) = none

module _ (ρ : Rules) where
  abbrev clean_path : Option Text → Option Text
  clean_path none = none
  clean_path (some t) = some (
      ρ.jwts (
        ρ.path_secrets
          (ρ.path_hashes (ρ.path_emails (filter (λ c. not (is_control c)) (take 512 t))))))

  abbrev path_of : Option (Text × Text) → Option Text
  path_of none = none
  path_of (some (protocol, path)) =
      if protocol === codes "http:" || protocol === codes "https:" || protocol === codes "webpack:"
      then clean_path (ρ.decode path)
      else none

  abbrev short_path : Option Text → Option Text
  short_path none = none
  short_path (some t) = if ltb 4096 (length t) then none else path_of (ρ.url t)

  unfoldable pub safe_path : {N : Type 0} → Option (Json N) → Option Text
  safe_path v = short_path (string_of v)

  abbrev url_or : Option Text → Text
  url_or none = codes "[url]"
  url_or (some t) = t

  -- The text that is left of the first `max_length` code units.
  unfoldable pub scrub_text : ℕ → Text → Text
  scrub_text max_length t =
      let cut = map blank (ρ.ansi (take (min max_length 4096) t)) in
      let plain =
        ρ.secrets (ρ.bearers (ρ.emails (ρ.urls (λ u. url_or (short_path (some u))) cut))) in
      ρ.hashes (ρ.addresses (ρ.jwts plain))

  abbrev scrub_or : ℕ → Option Text → Text
  scrub_or max_length none = []
  scrub_or max_length (some t) = scrub_text max_length t

  -- `scrub`: what is no text counts as empty.
  unfoldable pub scrub : {N : Type 0} → ℕ → Option (Json N) → Text
  unfolding scrub_text
  scrub max_length v = scrub_or max_length (string_of v)

abbrev is_lower : ℕ → Bool
is_lower c = leb 97 c && leb c 122

abbrev is_digit : ℕ → Bool
is_digit c = leb 48 c && leb c 57

abbrev is_letter : ℕ → Bool
is_letter c = is_lower c || (leb 65 c && leb c 90)

abbrev is_name : ℕ → Bool
is_name c = is_lower c || is_digit c || c == 45

abbrev starts : (ℕ → Bool) → Text → Bool
starts p [] = false
starts p (c ∷ t) = p c

-- /^[a-z][a-z0-9_]{0,31}$/
abbrev pub is_tag : Text → Bool
is_tag t =
    starts is_lower t && all (λ c. is_lower c || is_digit c || c == 95) t && leb (length t) 32

abbrev pub is_commit : Text → Bool
is_commit [] = false
is_commit (c ∷ t) = c == 64 && all is_hex t && length t == 40

-- /^[a-z0-9][a-z0-9-]{0,79}@[a-f0-9]{40}$/
abbrev pub is_release_name : Text → Bool
is_release_name t =
    let name = take (length t - 41) t in
    starts (λ c. is_lower c || is_digit c) name
    && all is_name name
    && leb (length name) 80
    && is_commit (drop (length t - 41) t)

-- /^[a-zA-Z0-9._-]{1,64}$/
abbrev pub is_dist : Text → Bool
is_dist t =
    all (λ c. is_letter c || is_digit c || c == 46 || c == 95 || c == 45) t
    && leb 1 (length t)
    && leb (length t) 64

-- /^(?:[a-zA-Z][a-zA-Z0-9_.-]{0,63}|[0-9]{1,6})$/
abbrev pub is_code : Text → Bool
is_code t =
    (starts is_letter t
      && all (λ c. is_letter c || is_digit c || c == 46 || c == 95 || c == 45) t
      && leb (length t) 64)
    || (all is_digit t && leb 1 (length t) && leb (length t) 6)

abbrev is_number_id : Text → Bool
is_number_id t =
    all is_digit t && leb 1 (length t) && (not (starts (λ c. c == 48) t) || length t == 1)

abbrev is_label : Text → Bool
is_label t = all (λ c. is_letter c || is_digit c || c == 45) t && leb 1 (length t)

-- A text before the first occurrence of a character, and what stands behind it.
abbrev longer : ℕ → Text × Option Text → Text × Option Text
longer c (t, rest) = (c ∷ t, rest)

pub cut_at : ℕ → Text → Text × Option Text
cut_at s [] = ([], none)
cut_at s (c ∷ t) = let rest = cut_at s t in if c == s then ([], some t) else longer c rest

abbrev is_core : List Text → Bool
is_core [] = false
is_core (a ∷ []) = false
is_core (a ∷ b ∷ []) = false
is_core (a ∷ b ∷ c ∷ []) = all (λ t. is_number_id t && leb (length t) 10) (a ∷ b ∷ c ∷ [])
is_core (a ∷ b ∷ c ∷ d ∷ r) = false

abbrev all_labels : (Text → Bool) → Option Text → Bool
all_labels p none = true
all_labels p (some t) = all p (split 46 t)

-- appVersionSchema: at most 64 code units of a semantic version.
unfoldable pub is_app_version : Text → Bool
unfolding cut_at split
is_app_version t =
    let with_build = cut_at 43 t in
    let with_label = cut_at 45 with_build.0 in
    leb (length t) 64
    && is_core (split 46 with_label.0)
    && all_labels (λ l. is_label l && (not (all is_digit l) || is_number_id l)) with_label.1
    && all_labels is_label with_build.1

-- sanitizeAppVersion
abbrev pub version_or : Option Text → Option Text
version_or none = none
version_or (some t) = if is_app_version t then some t else none

unfoldable pub sanitize_app_version : {N : Type 0} → Option (Json N) → Option Text
unfolding is_app_version
sanitize_app_version v = version_or (string_of v)
