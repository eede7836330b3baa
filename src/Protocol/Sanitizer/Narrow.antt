-- ===== src/Protocol/Sanitizer/Narrow.antt =====
-- The last check of `sanitizeEvent` against a smaller test: what building an event has ensured.
pub mod Parts
pub mod Lists
pub mod Whole
use get_exception.Base.{
  ℕ, ◌-◌, ◌≤◌, ◌≡◌, refl, Bool, true, false, ◌&&◌, leb, Option, none, some, List, [], ◌∷◌, length,
  drop, all, arith,
}
use get_exception.Ingest.Http.{Text}
use get_exception.Protocol.Json.{Json, null, bool, num, str, arr, obj}
use get_exception.Protocol.Envelope.{is_event_id}
use get_exception.Protocol.Sanitizer.Texts.{Doubles}
use get_exception.Protocol.Sanitizer.Parts.{within}
use get_exception.Protocol.Sanitizer.Contexts.{Breadcrumb}
use get_exception.Protocol.Sanitizer.Event.{Frame, SafeEvent}
use get_exception.Protocol.Sanitizer.Schema.{optional, at_most}

-- What the proofs use of doubles: zero is an integer and no greater than an integer up to ten
-- million, and a number between zero and 300000 is finite. All three hold of IEEE 754 doubles.
pub record DoubleLaws {N : Type 0} (δ : Doubles N) : Type 0 where
  pub zero_integer : δ.is_integer (δ.of_nat 0) ≡ true
  pub zero_le : (k : ℕ) → k ≤ 10000000 → δ.le (δ.of_nat 0) (δ.of_nat k) ≡ true
  pub finite_between :
      (n : N) → within δ (δ.of_nat 0) (δ.of_nat 300000) n ≡ true → δ.is_finite n ≡ true

abbrev pub is_str : {N : Type 0} → Json N → Bool
is_str null = false
is_str (bool b) = false
is_str (num n) = false
is_str (str t) = true
is_str (arr xs) = false
is_str (obj fs) = false

-- The replacements may have made a path or a name longer.
unfoldable pub fits_frame : {N : Type 0} → Frame N → Bool
fits_frame f = at_most 512 f.filename && at_most 160 f.function

-- A category or a method may be an array of one text.
unfoldable pub fits_breadcrumb : {N : Type 0} → Breadcrumb N → Bool
fits_breadcrumb b =
    is_str b.category
    && optional (at_most 512) b.path
    && optional is_str b.method
    && optional (at_most 120) b.operation

abbrev pub fits_tag : Text × Text → Bool
fits_tag (key, value) = at_most 120 value

-- The texts of an event that the replacements could have made too long.
unfoldable pub fits_event : {N : Type 0} → SafeEvent N → Bool
unfolding fits_frame fits_breadcrumb
fits_event e =
    is_event_id e.event_id
    && at_most 1024 e.message
    && at_most 120 e.exception_type
    && optional (at_most 512) e.route
    && all fits_frame e.frames
    && all fits_tag e.tags
    && all fits_breadcrumb e.breadcrumbs
