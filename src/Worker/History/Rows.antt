-- ===== src/Worker/History/Rows.antt =====
-- Lemmas on sightings and on lists of rows, for the transfer of histories.
use get_exception.Base.{
  ◌≡◌, refl, Bool, true, List, [], ◌∷◌, ◌++◌, All, any, filter, sym, subst, arith, Bool-cases, inl,
  inr,
}
use get_exception.Base.Table.{update, update_many}
use get_exception.Base.Table.Keys.{In}
use get_exception.Worker.History.{
  Environment, production, staging, development, same_environment, Sighting, History, not_after,
  earlier, later,
}

pub same_environment_refl : (a : Environment) → same_environment a a ≡ true
same_environment_refl production = refl
same_environment_refl staging = refl
same_environment_refl development = refl

pub same_environment→eq : (a b : Environment) → same_environment a b ≡ true → a ≡ b
same_environment→eq production production h = refl
same_environment→eq production staging h = ground (arith, h)
same_environment→eq production development h = ground (arith, h)
same_environment→eq staging production h = ground (arith, h)
same_environment→eq staging staging h = refl
same_environment→eq staging development h = ground (arith, h)
same_environment→eq development production h = ground (arith, h)
same_environment→eq development staging h = ground (arith, h)
same_environment→eq development development h = refl

pub not_after_refl : (s : Sighting) → not_after s s ≡ true
not_after_refl s = ground arith

pub not_after_trans :
    (s t u : Sighting) → not_after s t ≡ true → not_after t u ≡ true → not_after s u ≡ true
not_after_trans s t u h k = ground (arith, h, k)

pub earlier-left : (s t : Sighting) → not_after (earlier s t) s ≡ true
earlier-left s t = ground arith

pub earlier-right : (s t : Sighting) → not_after (earlier s t) t ≡ true
earlier-right s t = ground arith

pub later-left : (s t : Sighting) → not_after s (later s t) ≡ true
later-left s t = ground arith

pub later-right : (s t : Sighting) → not_after t (later s t) ≡ true
later-right s t = ground arith

module _ (p q : History → Bool) (f : History → History) where
  pub any-update :
      (rows : List History)
      → ((r : History) → q r ≡ true → p r ≡ true → p (f r) ≡ true)
      → any p rows ≡ true
      → any p (update q f rows) ≡ true
  any-update [] k e = e
  any-update (r ∷ rows) k e = ground (arith, e, k r, any-update rows k)

  pub any-update_many :
      (rows : List History)
      → ((r : History) → q r ≡ true → p r ≡ true → p (f r) ≡ true)
      → any p rows ≡ true
      → any p (update_many q f rows) ≡ true
  any-update_many [] k e = e
  any-update_many (r ∷ rows) k e = ground (arith, e, k r, any-update_many rows k)

pub any-append :
    (p : History → Bool) (rs : List History) (r : History)
    → p r ≡ true
    → any p (rs ++ (r ∷ [])) ≡ true
any-append p [] r e = ground (arith, e)
any-append p (s ∷ rs) r e = ground (arith, any-append p rs r e)

pub any-grow :
    (p : History → Bool) (rs : List History) (r : History)
    → any p rs ≡ true
    → any p (rs ++ (r ∷ [])) ≡ true
any-grow p (s ∷ rs) r e = ground (arith, e, any-grow p rs r)
any-grow p [] r e = ground (arith, e)

pub filter-All :
    (P : History → Type 0) (p : History → Bool) (rows : List History)
    → All (λ h. p h ≡ true → P h) rows
    → All P (filter p rows)
filter-All P p [] h = tt
filter-All P p (r ∷ rows) h = elim (Bool-cases (p r)) [
  | inl e ↦ rw e (h.0 e, filter-All P p rows h.1)
  | inr e ↦ rw e (filter-All P p rows h.1)
]

pub In-filter :
    (p : History → Bool) (k : History) (rows : List History)
    → p k ≡ true
    → In k rows
    → In k (filter p rows)
In-filter p k [] e m = m
In-filter p k (r ∷ rows) e (inl same) =
    let at : p r ≡ true = subst (λ x. p x ≡ true) (sym same) e in rw at (inl same)
In-filter p k (r ∷ rows) e (inr m) = elim (Bool-cases (p r)) [
  | inl at ↦ rw at (inr (In-filter p k rows e m))
  | inr at ↦ rw at (In-filter p k rows e m)
]
