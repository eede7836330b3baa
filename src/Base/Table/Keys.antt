-- ===== src/Base/Table/Keys.antt =====
-- Tables with a primary key: a row is the only one with its key, so an update by key changes it
-- and nothing else.
use Prim.Native.Nat.{ℕ}
use mathlib.Core.Path.{◌≡◌, refl, sym, subst, ◌∙◌}
use mathlib.Core.Logic.{◌≢◌, ◌⊎◌, inl, inr}
use mathlib.Core.Bool.{Bool, true, false}
use mathlib.Core.Option.{some}
use mathlib.Core.List.{List, [], ◌∷◌, ◌++◌}
use native.Mathlib.Omega.{arith}
use get_exception.Base.Tests.{◌==◌, ==_iff, Bool-cases, Option-cases}
use get_exception.Base.Lists.{All, filter}
use get_exception.Base.Table.{
  update_many, update, first_by, All-update_many, All-update, All-append,
}

-- Membership that can be taken apart. Rows are records of `Type 0`.
abbrev pub In : {R : Type 0} → R → List R → Type 0
In r [] = ⊥
In r (s ∷ rs) = (s ≡ r) ⊎ In r rs

pub All-In : {R : Type 0} (P : R → Type 0) (r : R) (rs : List R) → All P rs → In r rs → P r
All-In P r [] h m = elim m [ ]
All-In P r (s ∷ rs) h (inl e) = subst P e h.0
All-In P r (s ∷ rs) h (inr m) = All-In P r rs h.1 m

pub In-filter :
    {R : Type 0} (p : R → Bool) (r : R) (rs : List R) → In r (filter p rs) → In r rs × (p r ≡ true)
In-filter p r [] m = elim m [ ]
In-filter p r (s ∷ rs) m = elim (Bool-cases (p s)) [
  | inl e ↦ elim (subst (In r) (kept e) m) [
    | inl q ↦ (inl q, subst (λ t. p t ≡ true) q e)
    | inr n ↦ let (a, b) = In-filter p r rs n in (inr a, b)
  ]
  | inr e ↦ let (a, b) = In-filter p r rs (subst (In r) (dropped e) m) in (inr a, b)
]
  where
    kept : p s ≡ true → filter p (s ∷ rs) ≡ s ∷ filter p rs
    kept e = rw e

    dropped : p s ≡ false → filter p (s ∷ rs) ≡ filter p rs
    dropped e = rw e

pub filter-In :
    {R : Type 0} (p : R → Bool) (r : R) (rs : List R) → In r rs → p r ≡ true → In r (filter p rs)
filter-In p r [] m h = elim m [ ]
filter-In p r (s ∷ rs) (inl e) h = rw (subst (λ t. p t ≡ true) (sym e) h) (inl e)
filter-In p r (s ∷ rs) (inr m) h = elim (Bool-cases (p s)) [
  | inl e ↦ rw e (inr (filter-In p r rs m h))
  | inr e ↦ rw e (filter-In p r rs m h)
]

pub In-first_by :
    {R : Type 0} (before : R → R → Bool) (rs : List R) (r : R)
    → first_by before rs ≡ some r
    → In r rs
In-first_by before [] r e = cc
In-first_by before (s ∷ rs) r e = elim (Option-cases (first_by before rs)) [
  | inl n ↦ inl (ground (arith, n))
  | inr (t, q) ↦ elim (Bool-cases (before t s)) [
    | inl b ↦ inr (In-first_by before rs r (q ∙ ground (arith, q, b)))
    | inr b ↦ inl (ground (arith, q, b))
  ]
]

module _ {R : Type 0} (key : R → ℕ) where
  abbrev pub Keyed : List R → Type 0
  Keyed [] = Unit {0}
  Keyed (r ∷ rs) = All (λ s. key s ≢ key r) rs × Keyed rs

  -- The update of the row that has the key of `r` is an update of `r`.
  pub All-update_key :
      (P : R → Type 0) (f : R → R) (r : R) (rs : List R)
      → Keyed rs
      → In r rs
      → P (f r)
      → All P rs
      → All P (update (λ s. key s == key r) f rs)
  All-update_key P f r [] k m new h = elim m [ ]
  All-update_key P f r (s ∷ rs) k (inl e) new h = rw (e, (==_iff (key r) (key r)).1 refl) (new, h.1)
  All-update_key P f r (s ∷ rs) k (inr m) new h =
      rw (other (All-In (λ t. key t ≢ key s) r rs k.0 m))
        (h.0, All-update_key P f r rs k.1 m new h.1)
    where
      other : key r ≢ key s → (key s == key r) ≡ false
      other ne = ground arith

  -- An update that keeps the keys keeps them unlike one another.
  All-ne-update :
      (n : ℕ) (p : R → Bool) (f : R → R) (rs : List R)
      → ((r : R) → key (f r) ≡ key r)
      → All (λ s. key s ≢ n) rs
      → All (λ s. key s ≢ n) (update p f rs)
  All-ne-update n p f rs same h =
      All-update (λ s. key s ≢ n) p f rs h (λ r _ ne. subst (λ k. k ≢ n) (sym (same r)) ne)

  pub Keyed-update :
      (p : R → Bool) (f : R → R) (rs : List R)
      → ((r : R) → key (f r) ≡ key r)
      → Keyed rs
      → Keyed (update p f rs)
  Keyed-update p f [] same h = tt
  Keyed-update p f (r ∷ rs) same h = elim (Bool-cases (p r)) [
    | inl e ↦ rw e (subst (λ n. All (λ s. key s ≢ n) rs) (sym (same r)) h.0, h.1)
    | inr e ↦ rw e (All-ne-update (key r) p f rs same h.0, Keyed-update p f rs same h.1)
  ]

  pub Keyed-update_many :
      (p : R → Bool) (f : R → R) (rs : List R)
      → ((r : R) → key (f r) ≡ key r)
      → Keyed rs
      → Keyed (update_many p f rs)
  Keyed-update_many p f [] same h = tt
  Keyed-update_many p f (r ∷ rs) same h =
      let rest =
        All-update_many (λ s. key s ≢ key r) p f rs h.0
          (λ s _ ne. subst (λ k. k ≢ key r) (sym (same s)) ne) in
      (
        elim (Bool-cases (p r)) [
          | inl e ↦
              rw e (subst (λ n. All (λ s. key s ≢ n) (update_many p f rs)) (sym (same r)) rest)
          | inr e ↦ rw e rest
        ],
        Keyed-update_many p f rs same h.1,
      )

  pub Keyed-append :
      (new : R) (rs : List R) → Keyed rs → All (λ s. key s ≢ key new) rs → Keyed (rs ++ (new ∷ []))
  Keyed-append new [] h fresh = (tt, tt)
  Keyed-append new (r ∷ rs) h fresh = (
    All-append (λ s. key s ≢ key r) rs (new ∷ []) h.0 ((λ e. fresh.0 (sym e)), tt),
    Keyed-append new rs h.1 fresh.1,
  )
