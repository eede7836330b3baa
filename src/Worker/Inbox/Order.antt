-- ===== src/Worker/Inbox/Order.antt =====
-- The earliest row of a list, and that a claim leaves no exhausted row.
use get_exception.Base.{
  ℕ, ◌≡◌, Bool, true, false, refl, sym, subst, some-injective, Option, none, some, List, [], ◌∷◌,
  arith, All, ◌==◌, Bool-cases, inl, inr,
}
use get_exception.Base.Table.{first_by, earliest, All-update}
use get_exception.Base.{Ident}
use get_exception.Worker.Inbox.{
  Row, claim, grant, lease, bury_exhausted, bury, is_exhausted, precedes,
}

module _ {Payload : Type 0} where
  -- No row of the list is before `r`.
  abbrev pub NoneBefore : Row Payload → List (Row Payload) → Type 0
  NoneBefore r = All (λ s. precedes s r ≡ false)

  NoneBefore-trans :
      (r s : Row Payload) (rows : List (Row Payload))
      → precedes s r ≡ false
      → NoneBefore s rows
      → NoneBefore r rows
  NoneBefore-trans r s [] e h = tt
  NoneBefore-trans r s (t ∷ rows) e h = (ground (arith, h.0), NoneBefore-trans r s rows e h.1)

  NoneBefore-none :
      (r : Row Payload) (rows : List (Row Payload))
      → first_by precedes rows ≡ none
      → NoneBefore r rows
  NoneBefore-none r [] e = tt
  NoneBefore-none r (s ∷ rows) e = cc

  earliest-NoneBefore :
      (s : Row Payload) (rows : List (Row Payload)) (o : Option (Row Payload))
      → first_by precedes rows ≡ o
      → ((t : Row Payload) → first_by precedes rows ≡ some t → NoneBefore t rows)
      → NoneBefore (earliest precedes s o) (s ∷ rows)
  earliest-NoneBefore s rows none e ih = (ground arith, NoneBefore-none s rows e)
  earliest-NoneBefore s rows (some t) e ih = elim (Bool-cases (precedes t s)) [
    | inl b ↦ subst (λ r. NoneBefore r (s ∷ rows)) (sym (taken b)) (ground (arith, b), ih t e)
    | inr b ↦
        subst (λ r. NoneBefore r (s ∷ rows)) (sym (left b))
          (ground arith, NoneBefore-trans s t rows b (ih t e))
  ]
    where
      taken : precedes t s ≡ true → earliest precedes s (some t) ≡ t
      taken b = rw b

      left : precedes t s ≡ false → earliest precedes s (some t) ≡ s
      left b = rw b

  pub first_by-NoneBefore :
      (rows : List (Row Payload)) (r : Row Payload)
      → first_by precedes rows ≡ some r
      → NoneBefore r rows
  first_by-NoneBefore [] r e = tt
  first_by-NoneBefore (s ∷ rows) r e =
      subst (λ t. NoneBefore t (s ∷ rows)) (some-injective _ _ e)
        (earliest-NoneBefore s rows (first_by precedes rows) refl (first_by-NoneBefore rows))

  bury-not-exhausted :
      (now : ℕ) (inbox : List (Row Payload))
      → All (λ r. is_exhausted now r ≡ false) (bury_exhausted now inbox)
  unfolding bury_exhausted bury is_exhausted
  bury-not-exhausted now [] = tt
  bury-not-exhausted now (r ∷ inbox) = (ground arith, bury-not-exhausted now inbox)

  grant-not-exhausted :
      (now : ℕ) (token : Ident) (rows : List (Row Payload)) (o : Option (Row Payload))
      → All (λ r. is_exhausted now r ≡ false) rows
      → All (λ r. is_exhausted now r ≡ false) (grant now token rows o).0
  unfolding grant is_exhausted lease
  grant-not-exhausted now token rows none h = h
  grant-not-exhausted now token rows (some r) h =
      All-update (λ r. is_exhausted now r ≡ false) (λ s. s.id == r.id) (lease now token) rows h
        (λ s _ _. ground arith)

  -- After a claim no row whose lease has run out at its last attempt is left in processing.
  pub claim-not-exhausted :
      (live locked : Ident → Bool) (now : ℕ) (token : Ident) (inbox : List (Row Payload))
      → All (λ r. is_exhausted now r ≡ false) (claim live locked now token inbox).0
  unfolding claim
  claim-not-exhausted live locked now token inbox =
      grant-not-exhausted now token (bury_exhausted now inbox) _ (bury-not-exhausted now inbox)
