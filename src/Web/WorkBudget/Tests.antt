-- ===== src/Web/WorkBudget/Tests.antt =====
-- Two calls under a budget of two.
use get_exception.Base.{Ident, ◌≤◌, ◌≡◌, refl, ltb, List, [], ◌∷◌, length}
use get_exception.Web.AuthError.{succeeds}
use get_exception.Web.WorkBudget.{begin}
use get_exception.Web.WorkBudget.Running.{Reach, idle, begun, Reach-admits}

abbrev two : List Ident
two = 8 ∷ 7 ∷ []

both : Reach 2 two 2
unfolding begin
both = begun 8 (7 ∷ []) 1 2 (begun 7 [] 0 1 idle refl) refl

Reach-admits_example : (length two ≤ 2) × (succeeds (begin 2 2) ≡ ltb (length two) 2)
Reach-admits_example = Reach-admits 2 two 2 both
