-- ===== src/Ingest/Request.antt =====
-- apps/ingest/src/server.ts: what the handler of createIngestServer works on, and the checks of a
-- request that need neither its state nor its parameters.
use get_exception.Base.{
  Ident, ℕ, Bool, true, false, not, ◌&&◌, ◌||◌, ◌==◌, ltb, ◌===◌, list_eq, Eq, ◌≡◌, ◌↔◌, arith,
  ==_iff, Option, none, some, List, [], ◌∷◌, ◌++◌, length, filter, any, codes, if◌then◌else◌,
}
use get_exception.Protocol.Boundary.{Reason}
use get_exception.Ingest.Http.{
  Text, Header, Reply, header, respond, or_empty, is_key, auth_keys, lower_case, split, first_part,
  trim,
}

-- `installation`, `ip:…` and `project:…`.
pub data LimitKey : Type 0 where
  installation : LimitKey
  of_ip of_project : Ident → LimitKey

abbrev pub same_key : LimitKey → LimitKey → Bool
same_key installation installation = true
same_key installation (of_ip i) = false
same_key installation (of_project i) = false
same_key (of_ip i) installation = false
same_key (of_ip i) (of_ip j) = i == j
same_key (of_ip i) (of_project j) = false
same_key (of_project i) installation = false
same_key (of_project i) (of_ip j) = false
same_key (of_project i) (of_project j) = i == j

pub same_key_iff : (k l : LimitKey) → (same_key k l ≡ true) ↔ (k ≡ l)
same_key_iff installation installation = ground arith
same_key_iff installation (of_ip j) = ground arith
same_key_iff installation (of_project j) = ground arith
same_key_iff (of_ip i) installation = ground arith
same_key_iff (of_ip i) (of_ip j) = ground (arith, ==_iff i j)
same_key_iff (of_ip i) (of_project j) = ground arith
same_key_iff (of_project i) installation = ground arith
same_key_iff (of_project i) (of_ip j) = ground arith
same_key_iff (of_project i) (of_project j) = ground (arith, ==_iff i j)

instance abbrev pub limit_key_eq : Eq LimitKey
limit_key_eq = record { beq = same_key; beq_iff = same_key_iff }

pub record Request : Type 0 where
  pub url : Text
  pub method : Text
  pub remote_address : Option Text
  pub real_ip : Option Text
  pub forwarded_proto : Option Text
  pub origin : Option Text
  pub authorization : Option Text
  pub sentry_auth : Option Text
  pub content_type : Option Text
  pub content_encoding : Option Text
  pub content_length : ℕ
  pub requested_method : Option Text
  pub requested_headers : Option Text
  -- The names of the headers as they were sent.
  pub raw_names : List Text
  pub chunks : List (List ℕ)

-- A row of the view ingestion_config.
pub record Config : Type 0 where
  pub project_id : Text
  pub key_hash : Ident
  pub origin : Text
  pub allowed_tags : List Text

-- What sanitizeEvent gives or throws; `safe` says if the environment is development.
pub data Sanitized (Payload : Type 0) : Type 0 where
  safe : (development : Bool) (payload : Payload) → Sanitized Payload
  refused : Reason → Sanitized Payload
  malformed : Sanitized Payload

-- What the insert answers: the admission trigger can refuse a row.
pub data Insert : Type 0 where
  inserted over_capacity insert_failed : Insert

-- A part of the handler ends with a reply, or with what the next part needs.
pub data Turn (A : Type 0) : Type 0 where
  stop : Reply → Turn A
  go : A → Turn A

infixl 5 ◌>>=◌ ◌>>◌
abbrev pub ◌>>=◌ : {A B : Type 0} → Turn A → (A → Turn B) → Turn B
stop r >>= f = stop r
go a >>= f = f a

abbrev pub ◌>>◌ : {B : Type 0} → Turn (Unit {0}) → Turn B → Turn B
m >> k = m >>= λ _. k

-- `if (test) { return respond(res, status); }`
abbrev pub refuse_if : Bool → List Header → ℕ → Turn (Unit {0})
refuse_if true before status = stop (respond before status)
refuse_if false before status = go tt

abbrev pub single_headers : List Text
single_headers =
    codes "origin"
    ∷ codes "content-type"
    ∷ codes "content-encoding"
    ∷ codes "x-sentry-auth"
    ∷ codes "authorization"
    ∷ []

abbrev pub has_duplicate : Request → Bool
has_duplicate r =
    any (λ h. ltb 1 (length (filter (λ n. lower_case n === h) r.raw_names))) single_headers

abbrev pub or_unknown : Option Text → Text
or_unknown none = codes "unknown"
or_unknown (some t) = t

abbrev pub is_value : Text → Option Text → Bool
is_value t none = false
is_value t (some s) = s === t

abbrev pub some_first : List Text → Option Text
some_first [] = none
some_first (t ∷ ts) = some t

abbrev pub only_key : List Text → Turn (Option Text)
only_key [] = stop (respond [] 400)
only_key (k ∷ []) = go (some k)
only_key (k ∷ l ∷ ks) = stop (respond [] 400)

-- The key of the header x-sentry-auth, if it is there, or of the query.
abbrev pub named_key : List Text → Option Text → Turn (Option Text)
named_key query_keys none = go (some_first query_keys)
named_key query_keys (some auth) = only_key (auth_keys auth)

abbrev pub valid_key : Option Text → Turn Text
valid_key none = stop (respond [] 403)
valid_key (some k) = if is_key k then go k else stop (respond [] 403)

abbrev pub has_keys : List Text → Bool
has_keys [] = false
has_keys (k ∷ ks) = true

abbrev pub cors : Option Text → List Header
cors none = []
cors (some []) = []
cors (some (c ∷ t)) =
    record { name = codes "Access-Control-Allow-Origin"; value = c ∷ t }
    ∷ header "Vary" "Origin"
    ∷ header "Access-Control-Expose-Headers" "Retry-After, X-Sentry-Rate-Limits"
    ∷ []

abbrev pub preflight : List Header
preflight =
    header "Access-Control-Allow-Methods" "POST"
    ∷ header "Access-Control-Allow-Headers" "Content-Type, X-Sentry-Auth"
    ∷ []

abbrev pub is_allowed_header : Text → Bool
is_allowed_header h = h === codes "content-type" || h === codes "x-sentry-auth"

abbrev pub is_not_empty : Text → Bool
is_not_empty [] = false
is_not_empty (c ∷ t) = true

abbrev pub trimmed_parts : List Text → List Text
trimmed_parts [] = []
trimmed_parts (t ∷ ts) = trim t ∷ trimmed_parts ts

-- The headers that a preflight asks for.
unfoldable pub asked_headers : Option Text → List Text
asked_headers h = filter is_not_empty (trimmed_parts (split 44 (lower_case (or_empty h))))

abbrev pub is_envelope_type : Option Text → Bool
is_envelope_type h =
    let t = first_part (split 59 (or_empty h)) in
    t === codes "application/x-sentry-envelope"
    || t === codes "text/plain"
    || t === codes "application/octet-stream"

-- What the rest of the handler needs after `admit`: the project and the key.
pub record Ticket : Type 0 where
  pub project : Text
  pub key : Text

abbrev pub is_known_method : Text → Bool
is_known_method m = m === codes "POST" || m === codes "OPTIONS"

unfoldable pub preflight_reply : Request → List Header → Reply
unfolding asked_headers
preflight_reply r set =
    if not (is_value (codes "POST") r.requested_method)
    then respond set 400
    else if any (λ h. not (is_allowed_header h)) (asked_headers r.requested_headers)
    then respond set 400
    else respond (set ++ preflight) 200

abbrev pub lists_origin : Option Text → List Config → Bool
lists_origin o configs = any (λ c. is_value c.origin o) configs

abbrev pub is_config : (Text → Ident) → Ticket → Config → Bool
is_config hash t c = c.project_id === t.project && c.key_hash == hash t.key
