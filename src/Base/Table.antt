-- ===== src/Base/Table.antt =====
-- A database table as the list of its rows, with the calls of the client library that the program
-- makes: a condition selects the rows, and an update is made in place.
pub mod Keys
use get_exception.Base.Tests.{if◌then◌else◌, Bool-cases}
use get_exception.Base.Lists.{All, any, filter, length}
use Prim.Native.Nat.{ℕ, ◌+◌, ◌≤◌, suc}
use mathlib.Core.Path.{◌≡◌, refl}
use mathlib.Core.Logic.{◌⊎◌, inl, inr}
use mathlib.Core.Bool.{Bool, true, false, ◌&&◌, ◌||◌}
use mathlib.Core.Option.{Option, none, some}
use mathlib.Core.List.{List, [], ◌∷◌, ◌++◌}
use native.Mathlib.Omega.{arith}

module _ {ℓ} {R : Type ℓ} where
  -- updateMany
  abbrev pub update_many : (R → Bool) → (R → R) → List R → List R
  update_many p f [] = []
  update_many p f (r ∷ rs) = (if p r then f r else r) ∷ update_many p f rs

  -- findFirst, and findUnique where the condition is a key
  abbrev pub find_first : (R → Bool) → List R → Option R
  find_first p [] = none
  find_first p (r ∷ rs) = if p r then some r else find_first p rs

  -- deleteMany
  abbrev pub delete_many : (R → Bool) → List R → List R
  delete_many p [] = []
  delete_many p (r ∷ rs) = if p r then delete_many p rs else r ∷ delete_many p rs

  abbrev pub count : (R → Bool) → List R → ℕ
  count p [] = 0
  count p (r ∷ rs) = (if p r then 1 else 0) + count p rs

  -- update, where the condition is a key: at most one row meets it.
  abbrev pub update : (R → Bool) → (R → R) → List R → List R
  update p f [] = []
  update p f (r ∷ rs) = if p r then f r ∷ rs else r ∷ update p f rs

  -- The first row of an ORDER BY … LIMIT 1.
  abbrev pub earliest : (R → R → Bool) → R → Option R → R
  earliest before r none = r
  earliest before r (some s) = if before s r then s else r

  abbrev pub first_by : (R → R → Bool) → List R → Option R
  first_by before [] = none
  first_by before (r ∷ rs) = some (earliest before r (first_by before rs))

module _ {ℓ κ} {R : Type ℓ} (P : R → Type κ) where
  pub All-update_many :
      (p : R → Bool) (f : R → R) (rs : List R)
      → All P rs
      → ((r : R) → p r ≡ true → P r → P (f r))
      → All P (update_many p f rs)
  All-update_many p f [] h k = tt
  All-update_many p f (r ∷ rs) h k = (updated (p r) refl, All-update_many p f rs h.1 k)
    where
      updated : (b : Bool) → p r ≡ b → P (if b then f r else r)
      updated true e = k r e h.0
      updated false e = h.0

  pub All-update :
      (p : R → Bool) (f : R → R) (rs : List R)
      → All P rs
      → ((r : R) → p r ≡ true → P r → P (f r))
      → All P (update p f rs)
  All-update p f [] h k = tt
  All-update p f (r ∷ rs) h k = elim (Bool-cases (p r)) [
    | inl e ↦ rw e (k r e h.0, h.1)
    | inr e ↦ rw e (h.0, All-update p f rs h.1 k)
  ]

  pub All-append : (rs ss : List R) → All P rs → All P ss → All P (rs ++ ss)
  All-append [] ss h k = k
  All-append (r ∷ rs) ss h k = (h.0, All-append rs ss h.1 k)
