-- ===== src/Ingest/Http.antt =====
-- apps/ingest/src/http.ts, `respond` and `readEnvelopeBody`, and the texts that
-- apps/ingest/src/server.ts takes from a request. Texts are lists of code units, and a body comes
-- in chunks of bytes; `none` is a missing header.
pub mod Body
pub mod Tests
use get_exception.Base.{
  ℕ, ◌+◌, Bool, true, false, not, ◌&&◌, ◌||◌, ◌==◌, ltb, leb, ◌===◌, list_eq, Option, none, some,
  String, List, [], ◌∷◌, ◌++◌, length, take, drop, filter, any, all, codes, if◌then◌else◌,
}
use get_exception.Protocol.Boundary.{Outcome, ok, err, too_large, ◌>>=◌, ◌>>◌, require}
use get_exception.Protocol.Envelope.{max_envelope}

abbrev pub Text : Type 0
Text = List ℕ

pub record Header : Type 0 where
  pub name : Text
  pub value : Text

pub record Reply : Type 0 where
  pub status : ℕ
  pub headers : List Header
  -- The body: {"accepted": …}.
  pub accepted : Bool

abbrev pub header : String → String → Header
header name value = record { name = codes name; value = codes value }

-- `respond`, with the headers that the handler has set before it.
abbrev pub respond : List Header → ℕ → Reply
respond before status = record {
  status = status;
  headers =
      before
      ++ header "Cache-Control" "no-store"
        ∷ header "Content-Type" "application/json"
        ∷ header "X-Content-Type-Options" "nosniff"
        ∷ (if status == 429
            then header "Retry-After" "60"
              ∷ header "X-Sentry-Rate-Limits" "60:error:organization"
              ∷ []
            else []);
  accepted = status == 200;
}

-- The loop over the chunks: the bytes read so far, and their number.
pub read_chunks : List ℕ → ℕ → List (List ℕ) → Outcome (List ℕ)
read_chunks bytes size [] = ok bytes
read_chunks bytes size (chunk ∷ chunks) =
    let rest = read_chunks (bytes ++ chunk) (size + length chunk) chunks in
    if ltb max_envelope (size + length chunk) then err too_large else rest

-- `declared` is the header content-length, 0 if it is missing.
unfoldable pub read_envelope_body : ℕ → List (List ℕ) → Outcome (List ℕ)
unfolding read_chunks
read_envelope_body declared chunks = do
  require (not (ltb max_envelope declared)) too_large
  read_chunks [] 0 chunks

-- A header that JavaScript counts as true: it is there and not empty.
abbrev pub is_given : Option Text → Bool
is_given none = false
is_given (some []) = false
is_given (some (c ∷ t)) = true

abbrev pub or_empty : Option Text → Text
or_empty none = []
or_empty (some t) = t

abbrev pub is_hex : ℕ → Bool
is_hex c = (leb 97 c && leb c 102) || (leb 48 c && leb c 57)

abbrev pub is_hex_or_dash : ℕ → Bool
is_hex_or_dash c = is_hex c || c == 45

-- What stands behind a prefix of a text.
pub strip : Text → Text → Option Text
strip [] t = some t
strip (c ∷ p) [] = none
strip (c ∷ p) (d ∷ t) = if c == d then strip p t else none

abbrev check_path : Option Text → Option Text
check_path none = none
check_path (some t) =
    if all is_hex_or_dash (take 36 t) && (drop 36 t === codes "/envelope/")
    then some (take 36 t)
    else none

-- The project of /^\/api\/([a-f0-9-]{36})\/envelope\/$/; a shorter text leaves nothing to drop.
unfoldable pub match_path : Text → Option Text
unfolding strip
match_path path = check_path (strip (codes "/api/") path)

-- /^[a-f0-9]{64}$/
abbrev pub is_key : Text → Bool
is_key t = all is_hex t && length t == 64

-- \s of a JavaScript regular expression, among the characters that a header can have.
abbrev pub is_space : ℕ → Bool
is_space c = (leb 9 c && leb c 13) || c == 32 || c == 160

pub skip_space : Text → Text
skip_space [] = []
skip_space (c ∷ t) = let rest = skip_space t in if is_space c then rest else c ∷ t

abbrev ends_key : Text → Bool
ends_key [] = true
ends_key (c ∷ t) = c == 44

-- The group of sentry_key=([a-f0-9]{64})(?=,|$) at the start of a text.
abbrev key_at : Option Text → List Text
key_at none = []
key_at (some t) = if is_key (take 64 t) && ends_key (drop 64 t) then take 64 t ∷ [] else []

-- The matches of ,\s*sentry_key=…: a match holds no other comma, so none starts inside another.
pub comma_keys : Text → List Text
unfolding strip skip_space
comma_keys [] = []
comma_keys (c ∷ t) =
    (if c == 44 then key_at (strip (codes "sentry_key=") (skip_space t)) else []) ++ comma_keys t

-- ^Sentry\s+sentry_key=…
abbrev after_scheme : Option Text → List Text
after_scheme none = []
after_scheme (some []) = []
after_scheme (some (c ∷ t)) =
    if is_space c then key_at (strip (codes "sentry_key=") (skip_space t)) else []

-- The keys that the header x-sentry-auth names.
unfoldable pub auth_keys : Text → List Text
unfolding strip skip_space comma_keys
auth_keys t = after_scheme (strip (codes "Sentry") t) ++ comma_keys t

-- Compared with ASCII names only, so that the other letters do not matter.
abbrev pub lower : ℕ → ℕ
lower c = if leb 65 c && leb c 90 then c + 32 else c

abbrev pub lower_case : Text → Text
lower_case [] = []
lower_case (c ∷ t) = lower c ∷ lower_case t

-- String.prototype.split at a character.
abbrev cons_first : ℕ → List Text → List Text
cons_first c [] = (c ∷ []) ∷ []
cons_first c (part ∷ parts) = (c ∷ part) ∷ parts

unfoldable pub split : ℕ → Text → List Text
split s [] = [] ∷ []
split s (c ∷ t) = let rest = split s t in if c == s then [] ∷ rest else cons_first c rest

abbrev pub first_part : List Text → Text
first_part [] = []
first_part (part ∷ parts) = part

-- String.prototype.trim.
abbrev keep_back : ℕ → Text → Text
keep_back c [] = if is_space c then [] else c ∷ []
keep_back c (d ∷ t) = c ∷ d ∷ t

pub trim_end : Text → Text
trim_end [] = []
trim_end (c ∷ t) = keep_back c (trim_end t)

unfoldable pub trim : Text → Text
unfolding skip_space trim_end
trim t = trim_end (skip_space t)
