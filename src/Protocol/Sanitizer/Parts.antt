-- ===== src/Protocol/Sanitizer/Parts.antt =====
-- What the parts of an event share: fields that may be missing, numbers, times, `String(value)`.
use get_exception.Base.{
  ℕ, Bool, true, false, not, ◌&&◌, ◌===◌, list_eq, Option, none, some, List, [], ◌∷◌, ◌++◌, any,
  codes, if◌then◌else◌,
}
use get_exception.Ingest.Http.{Text}
use get_exception.Protocol.Json.{
  Json, null, bool, num, str, arr, obj, Items, nil, cons, Fields, end,
}
use get_exception.Protocol.Envelope.{record_of}
use get_exception.Protocol.Sanitizer.Texts.{Doubles}

-- A value, a BoundaryError, or another exception: a TypeError or a ZodError.
pub data Checked {ℓ} (A : Type ℓ) : Type ℓ where
  passed : A → Checked A
  refused : Checked A
  thrown : Checked A

infixl 5 ◌>>=◌
abbrev pub ◌>>=◌ {ℓ κ} : {A : Type ℓ} {B : Type κ} → Checked A → (A → Checked B) → Checked B
passed a >>= f = f a
refused >>= f = refused
thrown >>= f = thrown

abbrev pub record_in : {N : Type 0} → Option (Json N) → Fields N
record_in none = end
record_in (some v) = record_of v

abbrev pub items : {N : Type 0} → Items N → List (Json N)
items nil = []
items (cons v xs) = v ∷ items xs

-- An array's members; what is no array has none.
abbrev pub items_of : {N : Type 0} → Option (Json N) → List (Json N)
items_of none = []
items_of (some null) = []
items_of (some (bool b)) = []
items_of (some (num n)) = []
items_of (some (str t)) = []
items_of (some (arr xs)) = items xs
items_of (some (obj fs)) = []

abbrev pub is_false : {N : Type 0} → Option (Json N) → Bool
is_false none = false
is_false (some null) = false
is_false (some (bool b)) = not b
is_false (some (num n)) = false
is_false (some (str t)) = false
is_false (some (arr xs)) = false
is_false (some (obj fs)) = false

abbrev pub is_in : List Text → Option Text → Bool
is_in names none = false
is_in names (some t) = any (λ n. t === n) names

abbrev pub text_of_bool : Bool → Text
text_of_bool true = codes "true"
text_of_bool false = codes "false"

-- What `join` writes for a member: null is written as nothing.
abbrev member_text : {N : Type 0} → Json N → Option Text → Option Text
member_text null t = some []
member_text (bool b) t = t
member_text (num n) t = t
member_text (str s) t = t
member_text (arr xs) t = t
member_text (obj fs) t = t

abbrev joined : Option Text → Option Text → Option Text
joined none rest = none
joined (some t) none = none
joined (some t) (some u) = some (t ++ u)

abbrev comma : Option Text → Option Text
comma none = none
comma (some t) = some (44 ∷ t)

abbrev pub kept_if : {A : Type 0} → (A → Bool) → Option A → Option A
kept_if p none = none
kept_if p (some a) = if p a then some a else none

abbrev not_empty : Text → Bool
not_empty [] = false
not_empty (c ∷ t) = true

abbrev pub path_or_none : Option Text → Option Text
path_or_none path = kept_if not_empty path

module _ {N : Type 0} (δ : Doubles N) where
  abbrev pub within : N → N → N → Bool
  within a b n = δ.le a n && δ.le n b

  -- z.number().int() with a range.
  abbrev pub is_integer_in : ℕ → ℕ → N → Bool
  is_integer_in a b n = δ.is_integer n && within (δ.of_nat a) (δ.of_nat b) n

  abbrev pub number_if : (N → Bool) → Option (Json N) → Option N
  number_if p none = none
  number_if p (some null) = none
  number_if p (some (bool b)) = none
  number_if p (some (num n)) = if p n then some n else none
  number_if p (some (str t)) = none
  number_if p (some (arr xs)) = none
  number_if p (some (obj fs)) = none

  abbrev pub number_or : N → Option N → N
  number_or d none = d
  number_or d (some n) = n

  unfoldable pub integer : Option (Json N) → N
  integer v = number_or (δ.of_nat 0) (number_if (is_integer_in 0 10000000) v)

  -- boundedTime: at most seven days before now, and five minutes behind.
  unfoldable pub bounded_time : Option (Json N) → N → N
  bounded_time v now =
      number_or now
        (number_if (λ n. δ.is_finite n && within (δ.minus now 604800) (δ.plus now 300) n) v)

  -- `String(value)`; `none` is the TypeError of an object without a prototype.
  unfoldable mutual
    pub to_string : Json N → Option Text
    to_string null = some (codes "null")
    to_string (bool b) = some (text_of_bool b)
    to_string (num n) = some (δ.to_text n)
    to_string (str t) = some t
    to_string (arr xs) = join xs
    to_string (obj fs) = none

    pub join : Items N → Option Text
    join nil = some []
    join (cons v xs) = joined (member_text v (to_string v)) (join_rest xs)

    pub join_rest : Items N → Option Text
    join_rest nil = some []
    join_rest (cons v xs) = joined (comma (member_text v (to_string v))) (join_rest xs)

  -- What `includes(String(value))` lets through; `String(undefined)` is no name.
  abbrev among : List Text → Json N → Option Text → Checked (Option (Json N))
  among names v none = thrown
  among names v (some t) = passed (if is_in names (some t) then some v else none)

  unfoldable pub named : List Text → Option (Json N) → Checked (Option (Json N))
  unfolding to_string
  named names none = passed none
  named names (some v) = among names v (to_string v)
