-- ===== src/Web/WorkBudget/Running.antt =====
-- The calls of a budget that are in progress.
use get_exception.Base.{
  Ident, ℕ, ◌+◌, ◌≤◌, ◌≡◌, refl, ltb, List, [], ◌∷◌, ◌++◌, length, length-append, arith,
}
use get_exception.Web.AuthError.{ok, succeeds}
use get_exception.Web.WorkBudget.{begin, finish}

-- The states that calls reach in any interleaving: those in progress, and `active`.
pub data Reach (limit : ℕ) : List Ident → ℕ → Type 0 where
  idle : Reach limit [] 0
  begun :
      (id : Ident) (running : List Ident) (active active' : ℕ)
      → Reach limit running active
      → begin limit active ≡ ok active'
      → Reach limit (id ∷ running) active'
  finished :
      (id : Ident) (earlier later : List Ident) (active : ℕ)
      → Reach limit (earlier ++ (id ∷ later)) active
      → Reach limit (earlier ++ later) (finish active)

after_begin :
    (limit active active' : ℕ)
    → begin limit active ≡ ok active'
    → (active' ≡ active + 1) × (active' ≤ limit)
unfolding begin
after_begin limit active active' e = ground (arith, e)

counted :
    (limit : ℕ) (running : List Ident) (active : ℕ)
    → Reach limit running active
    → (active ≡ length running) × (active ≤ limit)
unfolding finish
counted limit _ _ idle = (refl, omega arith)
counted limit _ _ (begun id running active active' r e) =
    let before = counted limit running active r in
    let step = after_begin limit active active' e in (omega (arith, before.0, step.0), step.1)
counted limit _ _ (finished id earlier later active r) =
    let before = counted limit (earlier ++ (id ∷ later)) active r in
    (
      omega (arith, before.0, length-append earlier (id ∷ later), length-append earlier later),
      omega (arith, before.1),
    )

-- In every state that interleaved calls reach, no more calls are in progress than the limit, and a
-- further call is let in exactly when there are fewer.
pub Reach-admits :
    (limit : ℕ) (running : List Ident) (active : ℕ)
    → Reach limit running active
    → (length running ≤ limit) × (succeeds (begin limit active) ≡ ltb (length running) limit)
unfolding begin
Reach-admits limit running active r =
    let c = counted limit running active r in (omega (arith, c.0, c.1), ground (arith, c.0, c.1))
