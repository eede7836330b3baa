-- ===== src/Ingest/Server/Admitted.antt =====
-- What a request has passed, before its body is read.
use get_exception.Base.{
  Ident, ℕ, ◌≡◌, ◌≢◌, refl, Bool, true, false, not, suc, zero, Option-cases, inl, inr, ◌&&◌, ◌||◌,
  ◌===◌, list_eq, Option, none, some, List, [], ◌∷◌, filter, take, codes, arith, All, length, ltb,
}
use get_exception.Ingest.BucketLimiter.{Limiter}
use get_exception.Ingest.Http.{Text, Header, is_given, match_path, is_key}
use get_exception.Ingest.Request.{
  LimitKey, ◌>>=◌, refuse_if, named_key, valid_key, has_keys, has_duplicate, is_value, Request,
  Config, Turn, stop, go, Ticket, is_config, lists_origin,
}
use get_exception.Ingest.Server.{credentials, limited, admit, located, check, checked, check_post}

pub filter-All : {A : Type 0} (p : A → Bool) (xs : List A) → All (λ x. p x ≡ true) (filter p xs)
filter-All p [] = tt
filter-All p (x ∷ xs) = ground (arith, filter-All p xs)

pub take-All : {A : Type 0} (P : A → Type 0) (n : ℕ) (xs : List A) → All P xs → All P (take n xs)
take-All P zero xs h = tt
take-All P (suc n) [] h = tt
take-All P (suc n) (x ∷ xs) h = (h.0, take-All P n xs h.1)

-- What holds of a part's result, if the handler goes on.
abbrev pub Passes : {A : Type 0} → (A → Type 0) → Turn A → Type 0
Passes P (stop r) = Unit
Passes P (go a) = P a

Passes-bind :
    {A B : Type 0} (P : A → Type 0) (Q : B → Type 0) (m : Turn A) (f : A → Turn B)
    → Passes P m
    → ((a : A) → P a → Passes Q (f a))
    → Passes Q (m >>= f)
Passes-bind P Q (stop r) f h k = tt
Passes-bind P Q (go a) f h k = k a h

Passes-any : {A : Type 0} (m : Turn A) → Passes (λ _. Unit {0}) m
Passes-any (stop r) = tt
Passes-any (go a) = tt

Passes-refuse_if :
    {B : Type 0} (Q : B → Type 0) (b : Bool) (before : List Header) (status : ℕ) (m : Turn B)
    → (b ≡ false → Passes Q m)
    → Passes Q (refuse_if b before status >>= λ _. m)
Passes-refuse_if Q true before status m h = tt
Passes-refuse_if Q false before status m h = h refl

module _ (trusted_proxy : Bool) (parse_url : Text → Option (Text × List Text))
    (hash ident : Text → Ident) where
  -- The key is well formed, and the path and the method are those of the API.
  abbrev pub IsAdmitted : Request → Ticket → Type 0
  IsAdmitted r t =
      (is_key t.key ≡ true)
      × ((r.method === codes "POST" || r.method === codes "OPTIONS") ≡ true)
      × ((path : Text) × (query_keys : List Text) × (parse_url r.url ≡ some (path, query_keys))
          × (match_path path ≡ some t.project))

  abbrev pub HasKey : Text → Ticket → Type 0
  HasKey project t = (is_key t.key ≡ true) × (t.project ≡ project)

  valid_key-Passes :
      (project : Text) (named : Option Text)
      → Passes
          (HasKey project)
          (valid_key named >>= λ key. go (record { project = project; key = key }))
  valid_key-Passes project none = tt
  valid_key-Passes project (some k) = ground arith

  credentials-HasKey :
      (r : Request) (project : Text) (query_keys : List Text)
      → Passes
          (HasKey project)
          (credentials trusted_proxy parse_url hash ident r project query_keys)
  unfolding credentials
  credentials-HasKey r project query_keys =
      Passes-refuse_if (HasKey project) (has_duplicate r || is_given r.authorization) [] 400 _ λ _.
        Passes-refuse_if (HasKey project)
          (trusted_proxy && not (is_value (codes "https") r.forwarded_proto)) [] 400 _
          λ _.
            Passes-refuse_if (HasKey project)
              (ltb 1 (length query_keys) || (has_keys query_keys && is_given r.sentry_auth)) [] 400
              _
              λ _.
                Passes-bind (λ _. Unit {0}) (HasKey project) (named_key query_keys r.sentry_auth) _
                  (Passes-any (named_key query_keys r.sentry_auth))
                  λ named _. valid_key-Passes project named

  abbrev pub IsChosen : Request → List Config → List Config → Type 0
  IsChosen r chosen configs =
      (configs ≡ chosen)
      × (configs ≢ [])
      × ((r.method === codes "OPTIONS") ≡ false)
      × (is_given r.origin ≡ true → lists_origin r.origin configs ≡ true)

  check_post-Same :
      (r : Request) (t : Ticket) (configs : List Config) (now : ℕ) (l : Limiter LimitKey)
      → Passes
          (λ c. c ≡ configs)
          (check_post trusted_proxy parse_url hash ident r t configs now l).1
  unfolding check_post
  check_post-Same r t configs now l = ground arith

  checked-IsChosen :
      (r : Request) (t : Ticket) (now : ℕ) (l : Limiter LimitKey) (chosen : List Config)
      → Passes (IsChosen r chosen) (checked trusted_proxy parse_url hash ident r t now l chosen).1
  checked-IsChosen r t now l [] = tt
  checked-IsChosen r t now l (c ∷ cs) = ground (arith, check_post-Same r t (c ∷ cs) now l)

  pub check-IsChecked :
      (r : Request) (t : Ticket) (view : List Config) (now : ℕ) (l : Limiter LimitKey)
      → Passes
          (IsChosen r (take 100 (filter (is_config hash t) view)))
          (check trusted_proxy parse_url hash ident r t (some view) now l).1
  unfolding check
  check-IsChecked r t view now l =
      checked-IsChosen r t now l (take 100 (filter (is_config hash t) view))

  located-IsAdmitted :
      (r : Request) (now : ℕ) (l : Limiter LimitKey) (found : Option (Text × List Text))
      → parse_url r.url ≡ found
      → Passes (IsAdmitted r) (located trusted_proxy parse_url hash ident r now l found).1
  unfolding limited
  located-IsAdmitted r now l none at = tt
  located-IsAdmitted r now l (some (path, query_keys)) at = elim (Option-cases (match_path path)) [
    | inl m ↦ rw m tt
    | inr (project, m) ↦ rw m (ground (arith, at, m, credentials-HasKey r project query_keys))
  ]

  pub admit-IsAdmitted :
      (ready : Bool) (r : Request) (now : ℕ) (l : Limiter LimitKey)
      → Passes (IsAdmitted r) (admit trusted_proxy parse_url hash ident ready r now l).1
  unfolding admit
  admit-IsAdmitted ready r now l = ground (arith, located-IsAdmitted r now l (parse_url r.url) refl)
