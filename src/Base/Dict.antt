-- ===== src/Base/Dict.antt =====
-- A JavaScript `Map`: entries in insertion order, one for each key.
use Prim.Native.Nat.{◌+◌, ◌≤◌}
use mathlib.Core.Path.{◌≡◌, refl}
use mathlib.Core.Bool.{Bool, true, false}
use mathlib.Core.Option.{Option, none, some}
use mathlib.Core.List.{List, [], ◌∷◌}
use native.Mathlib.Omega.{arith}
use get_exception.Base.Tests.{if◌then◌else◌}
use get_exception.Base.Lists.{length}
use get_exception.Base.Equality.{Eq, ◌===◌}

abbrev pub Dict {ℓ κ} : Type ℓ → Type κ → Type (ℓ ⊔ κ)
Dict K V = List (K × V)

-- What a key reads after a sweep: its entry if the sweep kept it.
abbrev pub kept {κ} : {V : Type κ} → (V → Bool) → Option V → Option V
kept p none = none
kept p (some v) = if p v then some v else none

module _ {ℓ κ} {K : Type ℓ} {V : Type κ} ⦃e : Eq K⦄ where
  unfoldable pub get : Dict K V → K → Option V
  get [] k = none
  get ((j, v) ∷ m) k = if j === k then some v else get m k

  unfoldable pub has : Dict K V → K → Bool
  has [] k = false
  has ((j, v) ∷ m) k = if j === k then true else has m k

  unfoldable pub set : Dict K V → K → V → Dict K V
  set [] k v = (k, v) ∷ []
  set ((j, w) ∷ m) k v = if j === k then (k, v) ∷ m else (j, w) ∷ set m k v

  -- The entries that a sweep keeps.
  unfoldable pub keep : (V → Bool) → Dict K V → Dict K V
  keep p [] = []
  keep p ((j, v) ∷ m) = if p v then (j, v) ∷ keep p m else keep p m

  pub get-set :
      (m : Dict K V) (k j : K) (v : V) → get (set m k v) j ≡ (if k === j then some v else get m j)
  unfolding get set
  get-set [] k j v = refl
  get-set ((i, w) ∷ m) k j v =
      ground (arith, e.beq_iff k j, e.beq_iff i k, e.beq_iff i j, get-set m k j v)

  pub has-get : (m : Dict K V) (k : K) → has m k ≡ false → get m k ≡ none
  unfolding get has
  has-get [] k h = refl
  has-get ((i, w) ∷ m) k h = ground (arith, has-get m k)

  pub length-set-le : (m : Dict K V) (k : K) (v : V) → length (set m k v) ≤ length m + 1
  unfolding set
  length-set-le [] k v = omega arith
  length-set-le ((i, w) ∷ m) k v = ground (arith, length-set-le m k v)

  pub length-set-has :
      (m : Dict K V) (k : K) (v : V) → has m k ≡ true → length (set m k v) ≡ length m
  unfolding set has
  length-set-has [] k v h = cc
  length-set-has ((i, w) ∷ m) k v h = ground (arith, length-set-has m k v)

  pub length-keep-le : (p : V → Bool) (m : Dict K V) → length (keep p m) ≤ length m
  unfolding keep
  length-keep-le p [] = omega arith
  length-keep-le p ((i, w) ∷ m) = ground (arith, length-keep-le p m)

  -- No key has two entries.
  abbrev pub Distinct : Dict K V → Type 0
  Distinct [] = Unit {0}
  Distinct ((j, v) ∷ m) = (has m j ≡ false) × Distinct m

  pub has-set :
      (m : Dict K V) (k j : K) (v : V) → has (set m k v) j ≡ (if k === j then true else has m j)
  unfolding has set
  has-set [] k j v = refl
  has-set ((i, w) ∷ m) k j v =
      ground (arith, e.beq_iff k j, e.beq_iff i k, e.beq_iff i j, has-set m k j v)

  pub set-Distinct : (m : Dict K V) (k : K) (v : V) → Distinct m → Distinct (set m k v)
  unfolding set has
  set-Distinct [] k v d = (refl, tt)
  set-Distinct ((i, w) ∷ m) k v d =
      ground (arith, e.beq_iff i k, e.beq_iff k i, has-set m k i v, set-Distinct m k v d.1)

  has-keep : (p : V → Bool) (m : Dict K V) (j : K) → has m j ≡ false → has (keep p m) j ≡ false
  unfolding has keep
  has-keep p [] j h = refl
  has-keep p ((i, w) ∷ m) j h = ground (arith, has-keep p m j)

  pub keep-Distinct : (p : V → Bool) (m : Dict K V) → Distinct m → Distinct (keep p m)
  unfolding keep
  keep-Distinct p [] d = tt
  keep-Distinct p ((i, w) ∷ m) d = ground (arith, has-keep p m i, keep-Distinct p m d.1)

  pub get-keep :
      (p : V → Bool) (m : Dict K V) (k : K) → Distinct m → get (keep p m) k ≡ kept p (get m k)
  unfolding get keep
  get-keep p [] k d = refl
  get-keep p ((i, w) ∷ m) k d =
      ground (arith, e.beq_iff i k, has-keep p m i, has-get (keep p m) i, get-keep p m k d.1)
