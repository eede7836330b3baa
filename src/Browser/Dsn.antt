-- ===== src/Browser/Dsn.antt =====
-- packages/browser/src/index.ts, `dsnEndpoint`, and packages/browser/src/retry-after.ts. Texts are
-- lists of code units. The parser of URLs is a parameter, and so is what Date.parse and the
-- product `Number(value) * 1000` give where they are finite.
pub mod Limits
use get_exception.Base.{
  ℕ, ◌-◌, min, max, Bool, true, false, not, ◌&&◌, ◌||◌, ◌==◌, leb, ◌===◌, list_eq, Option, none,
  some, List, [], ◌∷◌, ◌++◌, length, all, codes, if◌then◌else◌,
}
use get_exception.Ingest.Http.{Text, is_hex, is_hex_or_dash, is_key}

pub record Url : Type 0 where
  pub protocol : Text
  pub origin : Text
  pub username : Text
  pub password : Text
  pub search : Text
  pub hash : Text
  pub pathname : Text

abbrev is_empty : Text → Bool
is_empty [] = true
is_empty (c ∷ t) = false

-- /^\/[a-f0-9-]{36}$/
abbrev pub is_project_path : Text → Bool
is_project_path [] = false
is_project_path (c ∷ t) = c == 47 && all is_hex_or_dash t && length t == 36

abbrev pub is_dsn : Url → Bool
is_dsn u =
    u.protocol === codes "https:"
    && is_empty u.password
    && is_empty u.search
    && is_empty u.hash
    && is_key u.username
    && is_project_path u.pathname

abbrev endpoint_of : Option Url → Option Text
endpoint_of none = none
endpoint_of (some u) =
    if is_dsn u
    then some (
        u.origin
        ++ codes "/api"
        ++ u.pathname
        ++ codes "/envelope/?sentry_key="
        ++ u.username
        ++ codes "&sentry_version=7")
    else none

-- `none` is the error that it throws.
unfoldable pub dsn_endpoint : (Text → Option Url) → Text → Option Text
dsn_endpoint parse dsn = endpoint_of (parse dsn)

abbrev is_digit : ℕ → Bool
is_digit c = leb 48 c && leb c 57

abbrev is_letter : ℕ → Bool
is_letter c = (leb 65 c && leb c 90) || (leb 97 c && leb c 122)

abbrev starts_letter : Text → Bool
starts_letter [] = false
starts_letter (c ∷ t) = is_letter c

abbrev since : ℕ → Option ℕ → Option ℕ
since now none = none
since now (some t) = some (t - now)

abbrev minute_if_none : Option ℕ → ℕ
minute_if_none none = 60000
minute_if_none (some delay) = delay

-- `delay` where it is finite; a date in the past counts as now, which the lower limit hides.
abbrev delay_of : (Text → Option ℕ) → (Text → Option ℕ) → ℕ → Option Text → Option ℕ
delay_of seconds date now none = none
delay_of seconds date now (some []) = none
delay_of seconds date now (some (c ∷ t)) =
    if all is_digit (c ∷ t)
    then seconds (c ∷ t)
    else if starts_letter (c ∷ t)
    then since now (date (c ∷ t))
    else none

unfoldable pub retry_after : (Text → Option ℕ) → (Text → Option ℕ) → Option Text → ℕ → ℕ
retry_after seconds date value now =
    min 300000 (max 1000 (minute_if_none (delay_of seconds date now value)))
