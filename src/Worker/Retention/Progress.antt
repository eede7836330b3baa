-- ===== src/Worker/Retention/Progress.antt =====
-- A run of the retention makes progress.
use get_exception.Base.{
  ℕ, ◌+◌, ◌≤◌, ◌≡◌, refl, sym, ◌∙◌, leb, Bool, true, false, ◌&&◌, List, [], ◌∷◌, ◌==◌, length, take,
  filter, any, All, arith, Bool-cases, inl, inr, ==_iff,
}
use get_exception.Worker.Release.{Release}
use get_exception.Worker.Retention.{
  Tables, is_removable, comes_before, insert_release, in_order, candidates, is_candidate, is_gone,
  batch, retain_releases,
}

All-insert_release :
    (P : Release → Type 0) (r : Release) (rs : List Release)
    → P r
    → All P rs
    → All P (insert_release r rs)
unfolding insert_release
All-insert_release P r [] h hs = (h, tt)
All-insert_release P r (t ∷ rs) h hs = elim (Bool-cases (comes_before r t)) [
  | inl e ↦ rw e (h, hs)
  | inr e ↦ rw e (hs.0, All-insert_release P r rs h hs.1)
]

All-in_order : (P : Release → Type 0) (rs : List Release) → All P rs → All P (in_order rs)
unfolding in_order
All-in_order P [] h = tt
All-in_order P (r ∷ rs) h = All-insert_release P r (in_order rs) h.0 (All-in_order P rs h.1)

-- A member of the table has the id of a candidate and satisfies the test.
abbrev HasId : (Release → Bool) → List Release → Release → Type 0
HasId p rs c = any (λ r. c.id == r.id && p r) rs ≡ true

HasId-tail :
    (p : Release → Bool) (t : Release) (rs cs : List Release)
    → All (HasId p rs) cs
    → All (HasId p (t ∷ rs)) cs
HasId-tail p t rs [] h = tt
HasId-tail p t rs (c ∷ cs) h = (ground (arith, h.0), HasId-tail p t rs cs h.1)

here-HasId :
    (p : Release → Bool) (r : Release) (rs : List Release) → p r ≡ true → HasId p (r ∷ rs) r
here-HasId p r rs h = rw ((==_iff r.id r.id).1 refl, h)

filter-HasId : (p : Release → Bool) (rs : List Release) → All (HasId p rs) (filter p rs)
filter-HasId p [] = tt
filter-HasId p (r ∷ rs) = elim (Bool-cases (p r)) [
  | inl e ↦ rw e (here-HasId p r rs e, HasId-tail p r rs (filter p rs) (filter-HasId p rs))
  | inr e ↦ rw e (HasId-tail p r rs (filter p rs) (filter-HasId p rs))
]

any-candidate :
    (p : Release → Bool) (c : Release) (cs rs : List Release)
    → HasId p rs c
    → any (λ r. is_candidate (c ∷ cs) r && p r) rs ≡ true
any-candidate p c cs [] h = ground (arith, h)
any-candidate p c cs (r ∷ rs) h = ground (arith, h, any-candidate p c cs rs)

length-insert_release :
    (r : Release) (rs : List Release) → length (insert_release r rs) ≡ length rs + 1
unfolding insert_release
length-insert_release r [] = omega arith
length-insert_release r (t ∷ rs) = ground (arith, length-insert_release r rs)

length-in_order : (rs : List Release) → length (in_order rs) ≡ length rs
unfolding in_order
length-in_order [] = refl
length-in_order (r ∷ rs) = omega (arith, length-insert_release r (in_order rs), length-in_order rs)

some_kept : (p : Release → Bool) (rs : List Release) → any p rs ≡ true → 1 ≤ length (filter p rs)
some_kept p [] h = ground (arith, h)
some_kept p (r ∷ rs) h = ground (arith, h, some_kept p rs)

some_candidate :
    (p : Release → Bool) (rs os : List Release)
    → All (HasId p rs) os
    → 1 ≤ length os
    → any (λ r. is_candidate (take batch os) r && p r) rs ≡ true
some_candidate p rs [] h k = ground (arith, k)
some_candidate p rs (c ∷ os) h k = any-candidate p c (take 99 os) rs h.0

some_gone :
    (now : ℕ) (s : Tables)
    → any (is_removable now s) s.releases ≡ true
    → any (is_gone now s) s.releases ≡ true
unfolding candidates
some_gone now s h =
    let p = is_removable now s in
    some_candidate p s.releases (in_order (filter p s.releases))
      (All-in_order (HasId p s.releases) (filter p s.releases) (filter-HasId p s.releases))
      (omega (arith, length-in_order (filter p s.releases), some_kept p s.releases h))

any-filter : (p : Release → Bool) (rs : List Release) → leb 1 (length (filter p rs)) ≡ any p rs
any-filter p [] = refl
any-filter p (r ∷ rs) = ground (arith, any-filter p rs)

none_of :
    (a p : Release → Bool) (rs : List Release) → any p rs ≡ false → any (λ r. a r && p r) rs ≡ false
none_of a p [] h = refl
none_of a p (r ∷ rs) h = ground (arith, h, none_of a p rs)

any-is_gone :
    (now : ℕ) (s : Tables) → any (is_gone now s) s.releases ≡ any (is_removable now s) s.releases
any-is_gone now s = elim (Bool-cases (any (is_removable now s) s.releases)) [
  | inl e ↦ some_gone now s e ∙ sym e
  | inr e ↦ none_of (is_candidate (candidates now s)) (is_removable now s) s.releases e ∙ sym e
]

-- As long as a release can go, a run removes at least one.
pub retain_releases_progress :
    (now : ℕ) (s : Tables) → leb 1 (retain_releases now s).1 ≡ any (is_removable now s) s.releases
unfolding retain_releases
retain_releases_progress now s = any-filter (is_gone now s) s.releases ∙ any-is_gone now s
