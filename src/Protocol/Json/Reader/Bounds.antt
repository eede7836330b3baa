-- ===== src/Protocol/Json/Reader/Bounds.antt =====
-- Every value that the reader returns keeps the budgets, and the fuel suffices.
use get_exception.Base.{
  ℕ, zero, suc, ◌+◌, ◌*◌, ◌≤◌, ◌<◌, ◌≡◌, ◌≢◌, List, [], ◌∷◌, arith, length, leb, leb→le,
}
use get_exception.Protocol.Boundary.{ok, out_of_fuel, too_large}
use get_exception.Protocol.Boundary.Ensures.{Ensures, Ensures-bind, Ensures-require}
use get_exception.Protocol.Json.{Json, Numbers, limits}
use get_exception.Protocol.Json.Literal.{skip_space, utf8_length}
use get_exception.Protocol.Json.Literal.Bounds.{length-skip_space-le}
use get_exception.Protocol.Json.Reader.{value, members, elements, bounded_json, ends}
use get_exception.Protocol.Json.Reader.Spec.{count_keys, Fits}
use get_exception.Protocol.Json.Reader.Branches.{
  IsValue, IsFields, IsItems, IsValue-mono, branch-IsValue,
}
use get_exception.Protocol.Json.Reader.Rounds.{member-IsFields, element-IsItems}

ends-total : (text : List ℕ) → Ensures (λ _. Unit {0}) (ends text)
ends-total [] = tt
ends-total (c ∷ rest) = tt

module _ (N : Numbers) where
  open N use {Number}

  mutual
    unfolding value members elements

    value-IsValue :
        (fuel depth n : ℕ) (text : List ℕ)
        → n ≤ limits.fields
        → 2 * length text < fuel
        → Ensures (IsValue N depth n (length text)) (value N fuel depth n text)
    value-IsValue zero depth n text g lt = absurd (omega arith)
    value-IsValue (suc fuel) depth n text g lt =
        Ensures-require (IsValue N depth n (length text)) (leb depth limits.depth) too_large _ λ h.
          IsValue-mono N depth n _ (length-skip_space-le text) (
            branch-IsValue N depth (members N fuel (depth + 1) []) (elements N fuel (depth + 1) 0) n
              (skip_space text) (leb→le depth limits.depth h) g
              (λ k t gk lk.
                members-IsFields fuel (depth + 1) [] k t gk
                  (omega (arith, length-skip_space-le text)))
              (λ k t gk lk.
                elements-IsItems fuel (depth + 1) 0 k t gk
                  (omega (arith, length-skip_space-le text))))

    members-IsFields :
        (fuel depth : ℕ) (seen : List (List ℕ)) (n : ℕ) (text : List ℕ)
        → n ≤ limits.fields
        → 2 * length text < fuel
        → Ensures (IsFields N depth seen n (length text)) (members N fuel depth seen n text)
    members-IsFields zero depth seen n text g lt = absurd (omega arith)
    members-IsFields (suc fuel) depth seen n text g lt =
        member-IsFields N depth (value N fuel depth) (members N fuel depth) seen n text g
          (λ k t gk lk. value-IsValue fuel depth k t gk (omega arith))
          (λ keys k t gk lk. members-IsFields fuel depth keys k t gk (omega arith))

    elements-IsItems :
        (fuel depth count n : ℕ) (text : List ℕ)
        → n ≤ limits.fields
        → 2 * length text + 1 < fuel
        → Ensures (IsItems N depth count n (length text)) (elements N fuel depth count n text)
    elements-IsItems zero depth count n text g lt = absurd (omega arith)
    elements-IsItems (suc fuel) depth count n text g lt =
        element-IsItems N depth (value N fuel depth) (elements N fuel depth) count n text g
          (λ k t gk lk. value-IsValue fuel depth k t gk (omega arith))
          (λ k t gk lk. elements-IsItems fuel depth (count + 1) k t gk (omega arith))

  pub bounded_json-Ensures :
      (text : List ℕ) (max_bytes : ℕ)
      → Ensures
          (λ v. Fits 0 v × (count_keys v ≤ limits.fields) × (utf8_length text ≤ max_bytes))
          (bounded_json N text max_bytes)
  unfolding bounded_json
  bounded_json-Ensures text max_bytes =
      let R : Json Number → Type 0 =
        λ v. Fits 0 v × (count_keys v ≤ limits.fields) × (utf8_length text ≤ max_bytes) in
      Ensures-require R (leb (utf8_length text) max_bytes) too_large _ λ b.
        Ensures-bind (IsValue N 0 0 (length text)) R _ _
          (value-IsValue (suc (2 * length text)) 0 0 text (omega arith) (omega arith))
          λ r q.
            Ensures-bind (λ _. Unit {0}) R (ends (skip_space r.2)) _ (ends-total (skip_space r.2))
              λ _ _. (q.0, omega arith, leb→le (utf8_length text) max_bytes b)

  -- A value that `bounded_json` returns is nested at most 16 deep, has at most 2048 object keys in
  -- all, at most 512 elements in each array and 4096 code units in each text, and no object with a
  -- forbidden or a repeated key; and its text was within the byte limit.
  pub bounded_json-Fits :
      (text : List ℕ) (max_bytes : ℕ) (v : Json Number)
      → bounded_json N text max_bytes ≡ ok v
      → Fits 0 v × (count_keys v ≤ limits.fields) × (utf8_length text ≤ max_bytes)
  bounded_json-Fits text max_bytes v e = rw e at (bounded_json-Ensures text max_bytes)

  -- The reader comes to an end on every text, with a value or a `BoundaryError`.
  pub bounded_json_ends :
      (text : List ℕ) (max_bytes : ℕ) → bounded_json N text max_bytes ≢ out_of_fuel
  bounded_json_ends text max_bytes e = rw e at (bounded_json-Ensures text max_bytes)
