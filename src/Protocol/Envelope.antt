-- ===== src/Protocol/Envelope.antt =====
-- packages/protocol/src/json.ts: `record` and `parseEnvelope`. A request's body is a list of bytes:
-- a line with the header, a line that describes the item, and the item. The library's strict UTF-8
-- decoder and the reading of a double as an integer are parameters.
pub mod Safety
pub mod Tests
use get_exception.Base.{
  ℕ, ◌+◌, Bool, true, false, not, ◌&&◌, ◌||◌, ◌==◌, leb, ltb, ◌===◌, list_eq, Option, none, some,
  List, [], ◌∷◌, length, take, drop, all, codes, if◌then◌else◌,
}
use get_exception.Protocol.Boundary.{
  Outcome, ok, err, invalid, too_large, unsupported, ◌>>=◌, ◌>>◌, require,
}
use get_exception.Protocol.Json.{
  Numbers, Json, null, bool, num, str, arr, obj, Fields, end, field, limits,
}
use get_exception.Protocol.Json.Reader.{bounded_json}

-- `record`: what is no object counts as one without fields.
abbrev pub record_of : {N : Type 0} → Json N → Fields N
record_of null = end
record_of (bool b) = end
record_of (num n) = end
record_of (str t) = end
record_of (arr xs) = end
record_of (obj fs) = fs

-- A field; `none` is undefined.
unfoldable pub get_field : {N : Type 0} → List ℕ → Fields N → Option (Json N)
get_field k end = none
get_field k (field j v fs) = if j === k then some v else get_field k fs

abbrev longer : ℕ → Option (List ℕ × List ℕ) → Option (List ℕ × List ℕ)
longer b none = none
longer b (some (line, rest)) = some (b ∷ line, rest)

abbrev extend : ℕ → List ℕ → Option (List ℕ × List ℕ) → Option (List ℕ × List ℕ)
extend b bs rest = if b == 10 then some ([], bs) else longer b rest

-- The bytes before and behind the first line feed.
pub cut : List ℕ → Option (List ℕ × List ℕ)
cut [] = none
cut (b ∷ bs) = extend b bs (cut bs)

abbrev pub max_envelope : ℕ
max_envelope = 1310720

abbrev pub max_line : ℕ
max_line = 8192

abbrev is_hex : ℕ → Bool
is_hex c = (leb 97 c && leb c 102) || (leb 48 c && leb c 57)

-- /^[a-f0-9]{32}$/
abbrev pub is_event_id : List ℕ → Bool
is_event_id t = all is_hex t && (length t == 32)

abbrev pub from : {A : Type 0} → Option A → Outcome A
from none = err invalid
from (some a) = ok a

abbrev pub text_of : {N : Type 0} → Option (Json N) → Option (List ℕ)
text_of none = none
text_of (some null) = none
text_of (some (bool b)) = none
text_of (some (num n)) = none
text_of (some (str t)) = some t
text_of (some (arr xs)) = none
text_of (some (obj fs)) = none

abbrev is_codes : List ℕ → Option (List ℕ) → Bool
is_codes s none = false
is_codes s (some t) = t === s

abbrev pub is_text : {N : Type 0} → List ℕ → Option (Json N) → Bool
is_text s v = is_codes s (text_of v)

abbrev pub is_present : {N : Type 0} → Option (Json N) → Bool
is_present none = false
is_present (some v) = true

-- `event.event_id ?? header.event_id`: null counts as missing.
abbrev pub or_else : {N : Type 0} → Option (Json N) → Option (Json N) → Option (Json N)
or_else none v = v
or_else (some null) v = v
or_else (some (bool b)) v = some (bool b)
or_else (some (num n)) v = some (num n)
or_else (some (str t)) v = some (str t)
or_else (some (arr xs)) v = some (arr xs)
or_else (some (obj fs)) v = some (obj fs)

-- The item without a trailing line feed, if its length says so.
abbrev pub trimmed : List ℕ → ℕ → Outcome (List ℕ)
trimmed body n =
    if length body == n || (length body == n + 1 && (drop n body === (10 ∷ [])))
    then ok (take n body)
    else err invalid

-- `decode` is the strict UTF-8 decoder, and `integer` a double that is an integer above zero.
module _ (N : Numbers) (decode : List ℕ → Option (List ℕ)) (integer : N.Number → Option ℕ) where
  open N use {Number}

  unfoldable pub read : List ℕ → ℕ → Outcome (Json Number)
  read bytes max_bytes = do text ← from (decode bytes); bounded_json N text max_bytes

  abbrev pub length_of : Json Number → Option ℕ
  length_of null = none
  length_of (bool b) = none
  length_of (num n) = integer n
  length_of (str t) = none
  length_of (arr xs) = none
  length_of (obj fs) = none

  -- `item.length`, if it is there.
  unfoldable pub item_body : Option (Json Number) → List ℕ → Outcome (List ℕ)
  item_body none body = ok body
  item_body (some v) body = do
    n ← from (length_of v)
    require (leb 1 n && leb n limits.item) invalid
    trimmed body n

  -- The event, and its id, which the header may give.
  unfoldable pub read_event : Option (Json Number) → List ℕ → Outcome (Fields Number × List ℕ)
  unfolding read get_field
  read_event named content = do
    e ← read content limits.item
    let event = record_of e
    id ← from (text_of (or_else (get_field (codes "event_id") event) named))
    require (is_event_id id && (not (is_present named) || is_text id named)) invalid
    ok (event, id)

  -- The three parts of an envelope.
  unfoldable pub parse_parts : List ℕ → List ℕ → List ℕ → Outcome (Fields Number × List ℕ)
  unfolding read item_body read_event get_field
  parse_parts header_line item_line body = do
    h ← read header_line max_line
    let header = record_of h
    require (not (is_present (get_field (codes "dsn") header))) unsupported
    i ← read item_line max_line
    let item = record_of i
    require (is_text (codes "event") (get_field (codes "type") item)) unsupported
    content ← item_body (get_field (codes "length") item) body
    read_event (get_field (codes "event_id") header) content

  unfoldable pub parse_envelope : List ℕ → Outcome (Fields Number × List ℕ)
  unfolding cut parse_parts
  parse_envelope bytes = do
    require (leb (length bytes) max_envelope) too_large
    (header_line, rest) ← from (cut bytes)
    (item_line, body) ← from (cut rest)
    require
        (leb 1 (length header_line)
          && leb (length header_line) max_line
          && leb (length item_line + 1) max_line)
        invalid
    parse_parts header_line item_line body
