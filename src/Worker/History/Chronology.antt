-- ===== src/Worker/History/Chronology.antt =====
-- The trigger makes a history independent of the order in which its sightings come.
use get_exception.Base.{
  ◌≡◌, refl, true, List, [], ◌∷◌, arith, All, inl, inr, ◌⊎◌, Bool-cases, map, sym, ◌∙◌,
}
use get_exception.Base.Table.Keys.{In}
use get_exception.Worker.History.{Sighting, History, not_after, earlier, later, chronology}

-- The history after the updates of a list, in its order.
unfoldable pub replay : History → List History → History
unfolding chronology
replay h [] = h
replay h (new ∷ rest) = replay (chronology h new) rest

abbrev pub firsts : History → List History → List Sighting
firsts h rest = map (λ n. n.first) (h ∷ rest)

abbrev pub lasts : History → List History → List Sighting
lasts h rest = map (λ n. n.last) (h ∷ rest)

not_after_trans :
    (r s t : Sighting) → not_after r s ≡ true → not_after s t ≡ true → not_after r t ≡ true
not_after_trans r s t e g = ground arith

first-le : (h : History) (rest : List History) → not_after (replay h rest).first h.first ≡ true
unfolding replay chronology
first-le h [] = ground arith
first-le h (new ∷ rest) =
    not_after_trans (replay (chronology h new) rest).first (earlier h.first new.first) h.first
      (first-le (chronology h new) rest) (ground arith)

le-last : (h : History) (rest : List History) → not_after h.last (replay h rest).last ≡ true
unfolding replay chronology
le-last h [] = ground arith
le-last h (new ∷ rest) =
    not_after_trans h.last (later h.last new.last) (replay (chronology h new) rest).last
      (ground arith) (le-last (chronology h new) rest)

first-All :
    (h : History) (rest : List History)
    → All (λ s. not_after (replay h rest).first s ≡ true) (firsts h rest)
unfolding replay chronology
first-All h [] = (ground arith, tt)
first-All h (new ∷ rest) =
    let r = (replay (chronology h new) rest).first in
    let (whole, others) = first-All (chronology h new) rest in
    (
      not_after_trans r (earlier h.first new.first) h.first whole (ground arith),
      (not_after_trans r (earlier h.first new.first) new.first whole (ground arith), others),
    )

last-All :
    (h : History) (rest : List History)
    → All (λ s. not_after s (replay h rest).last ≡ true) (lasts h rest)
unfolding replay chronology
last-All h [] = (ground arith, tt)
last-All h (new ∷ rest) =
    let r = (replay (chronology h new) rest).last in
    let (whole, others) = last-All (chronology h new) rest in
    (
      not_after_trans h.last (later h.last new.last) r (ground arith) whole,
      (not_after_trans new.last (later h.last new.last) r (ground arith) whole, others),
    )

earlier-cases : (s t : Sighting) → (earlier s t ≡ s) ⊎ (earlier s t ≡ t)
earlier-cases s t = elim (Bool-cases (not_after s t)) [
  | inl b ↦ inl (rw b refl)
  | inr b ↦ inr (rw b refl)
]

later-cases : (s t : Sighting) → (later s t ≡ s) ⊎ (later s t ≡ t)
later-cases s t = elim (Bool-cases (not_after t s)) [
  | inl b ↦ inl (rw b refl)
  | inr b ↦ inr (rw b refl)
]

first-In : (h : History) (rest : List History) → In (replay h rest).first (firsts h rest)
unfolding replay chronology
first-In h [] = inl refl
first-In h (new ∷ rest) = elim (first-In (chronology h new) rest) [
  | inl e ↦ elim (earlier-cases h.first new.first) [
    | inl c ↦ inl (sym c ∙ e)
    | inr c ↦ inr (inl (sym c ∙ e))
  ]
  | inr m ↦ inr (inr m)
]

last-In : (h : History) (rest : List History) → In (replay h rest).last (lasts h rest)
unfolding replay chronology
last-In h [] = inl refl
last-In h (new ∷ rest) = elim (last-In (chronology h new) rest) [
  | inl e ↦ elim (later-cases h.last new.last) [
    | inl c ↦ inl (sym c ∙ e)
    | inr c ↦ inr (inl (sym c ∙ e))
  ]
  | inr m ↦ inr (inr m)
]

-- After updates in any order a history holds the first of all first sightings and the last of all
-- last sightings, by time and then by event.
pub replay-extremes :
    (h : History) (rest : List History)
    → All (λ s. not_after (replay h rest).first s ≡ true) (firsts h rest)
      × In (replay h rest).first (firsts h rest)
      × All (λ s. not_after s (replay h rest).last ≡ true) (lasts h rest)
      × In (replay h rest).last (lasts h rest)
replay-extremes h rest = (first-All h rest, first-In h rest, last-All h rest, last-In h rest)
