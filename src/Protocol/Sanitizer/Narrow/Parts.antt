-- ===== src/Protocol/Sanitizer/Narrow/Parts.antt =====
-- Frames, breadcrumbs, tags and contexts: what is built passes the schema as far as it fits.
use get_exception.Base.{
  ◌≡◌, refl, Bool, true, false, ◌&&◌, Option, none, some, List, arith, Option-cases, inl, inr,
  list_eq, if◌then◌else◌,
}
use get_exception.Ingest.Http.{Text}
use get_exception.Protocol.Json.{Json, null, bool, num, str, arr, obj}
use get_exception.Protocol.Sanitizer.Texts.{Doubles}
use get_exception.Protocol.Sanitizer.Parts.{
  Checked, passed, refused, thrown, ◌>>=◌, kept_if, within, is_integer_in, number_if, number_or,
  integer, bounded_time, to_string, named,
}
use get_exception.Protocol.Sanitizer.Contexts.{status_of}
use get_exception.Protocol.Sanitizer.Schema.{optional, is_enum}
use get_exception.Protocol.Sanitizer.Narrow.{DoubleLaws, is_str}

-- Every value that a check lets through satisfies a predicate.
abbrev pub Passes {ℓ κ} : {A : Type ℓ} → (A → Type κ) → Checked A → Type κ
Passes P (passed a) = P a
Passes P refused = Unit
Passes P thrown = Unit

pub Passes-bind {ℓ κ} :
    {A B : Type ℓ} (P : A → Type κ) (Q : B → Type κ) (m : Checked A) (f : A → Checked B)
    → Passes P m
    → ((a : A) → P a → Passes Q (f a))
    → Passes Q (m >>= f)
Passes-bind P Q (passed a) f p k = k a p
Passes-bind P Q refused f p k = tt
Passes-bind P Q thrown f p k = tt

pub optional-kept_if :
    {A : Type 0} (p q : A → Bool) (v : Option A)
    → ((a : A) → p a ≡ true → q a ≡ true)
    → optional q (kept_if p v) ≡ true
optional-kept_if p q none h = refl
optional-kept_if p q (some a) h = ground (arith, h a)

module _ {N : Type 0} (δ : Doubles N) where
  pub optional-number_if :
      (p q : N → Bool) (v : Option (Json N))
      → ((n : N) → p n ≡ true → q n ≡ true)
      → optional q (number_if δ p v) ≡ true
  optional-number_if p q none h = refl
  optional-number_if p q (some null) h = refl
  optional-number_if p q (some (bool b)) h = refl
  optional-number_if p q (some (num n)) h = ground (arith, h n)
  optional-number_if p q (some (str t)) h = refl
  optional-number_if p q (some (arr xs)) h = refl
  optional-number_if p q (some (obj fs)) h = refl

  number_or-holds :
      (p q : N → Bool) (d : N) (v : Option (Json N))
      → q d ≡ true
      → ((n : N) → p n ≡ true → q n ≡ true)
      → q (number_or δ d (number_if δ p v)) ≡ true
  number_or-holds p q d none h k = h
  number_or-holds p q d (some null) h k = h
  number_or-holds p q d (some (bool b)) h k = h
  number_or-holds p q d (some (num n)) h k = ground (arith, k n)
  number_or-holds p q d (some (str t)) h k = h
  number_or-holds p q d (some (arr xs)) h k = h
  number_or-holds p q d (some (obj fs)) h k = h

pub and-left : (a b : Bool) → (a && b) ≡ true → a ≡ true
and-left true b h = refl
and-left false b h = h

pub and-right : (a b : Bool) → (a && b) ≡ true → b ≡ true
and-right true b h = h
and-right false b h = ground arith

module _ {N : Type 0} (δ : Doubles N) (laws : DoubleLaws δ) where
  pub integer-IsIn : (v : Option (Json N)) → is_integer_in δ 0 10000000 (integer δ v) ≡ true
  unfolding integer
  integer-IsIn v =
      number_or-holds δ (is_integer_in δ 0 10000000) (is_integer_in δ 0 10000000) (δ.of_nat 0) v
        (rw (laws.zero_integer, laws.zero_le 0 (omega arith), laws.zero_le 10000000 (omega arith)))
        (λ n h. h)

  pub bounded_time_finite :
      (v : Option (Json N)) (now : N)
      → δ.is_finite now ≡ true
      → δ.is_finite (bounded_time δ v now) ≡ true
  unfolding bounded_time
  bounded_time_finite v now h =
      number_or-holds δ _ δ.is_finite now v h λ n b. and-left (δ.is_finite n) _ b

  status_if :
      (n : N)
      → δ.is_integer n ≡ true
      → optional
          (is_integer_in δ 100 599)
          (if within δ (δ.of_nat 100) (δ.of_nat 599) n then some n else none)
        ≡ true
  status_if n h = ground (arith, h)

  pub status_of_range :
      (v : Option (Json N)) → optional (is_integer_in δ 100 599) (status_of δ v) ≡ true
  unfolding status_of
  status_of_range v =
      status_if (integer δ v) (and-left (δ.is_integer (integer δ v)) _ (integer-IsIn v))

-- Breadcrumbs

-- A value that `includes` let through is a member of the enum if it is a text.
abbrev pub Agrees : {N : Type 0} → List Text → Json N → Type 0
Agrees names v = is_enum names v ≡ is_str v

module _ {N : Type 0} (δ : Doubles N) where
  pub named-Agrees :
      (names : List Text) (v : Option (Json N))
      → Passes (λ c. optional (is_enum names) c ≡ optional is_str c) (named δ names v)
  unfolding named to_string
  named-Agrees names none = refl
  named-Agrees names (some null) = ground arith
  named-Agrees names (some (bool b)) = ground arith
  named-Agrees names (some (num n)) = ground arith
  named-Agrees names (some (str t)) = ground arith
  named-Agrees names (some (arr xs)) = elim (Option-cases (to_string δ (arr xs))) [
    | inl e ↦ rw e tt
    | inr e ↦ rw e.1 (ground arith)
  ]
  named-Agrees names (some (obj fs)) = tt
