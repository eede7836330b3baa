-- ===== src/Protocol/Json/Reader/Branches.antt =====
-- The branches of `value` keep the budgets and shorten the text.
use get_exception.Base.{ℕ, suc, ◌+◌, ◌≤◌, ◌<◌, ◌≡◌, List, [], ◌∷◌, arith, length, take, ◌==◌}
use get_exception.Protocol.Boundary.{ok, err, out_of_fuel, invalid}
use get_exception.Protocol.Boundary.Ensures.{Ensures, Ensures-bind, Ensures-require, Ensures-if}
use get_exception.Protocol.Json.{Json, Items, Fields, Numbers, limits}
use get_exception.Protocol.Json.Literal.{quote, skip_space, string, number_length}
use get_exception.Protocol.Json.Literal.Bounds.{
  length-skip_space-le, length-drop-le, length-drop-lt, IsString, string-IsString,
}
use get_exception.Protocol.Json.Reader.{
  Reader, Read, shift, expect, tail_length, scalar, object, array, branch, members, elements,
}
use get_exception.Protocol.Json.Reader.Spec.{
  count_keys, count_keys_items, count_keys_fields, length_items, Fits, FitsItems, FitsFields,
}

-- What a reader makes of `n` keys counted and a text of length `size`: a fitting thing, the keys of
-- the thing counted, within the limit, and a shorter text.
abbrev pub Reads : {A : Type 0} → (A → Type 0) → (A → ℕ) → ℕ → ℕ → A × ℕ × List ℕ → Type 0
Reads P keys n size r = P r.0 × (r.1 ≡ n + keys r.0) × (r.1 ≤ limits.fields) × (length r.2 < size)

-- A reader that does so for the texts shorter than a bound.
abbrev pub Works : {A : Type 0} → (A → Type 0) → (A → ℕ) → ℕ → Reader A → Type 0
Works P keys bound read =
    (n : ℕ) (text : List ℕ)
    → n ≤ limits.fields
    → length text < bound
    → Ensures (Reads P keys n (length text)) (read n text)

pub shift-shorter : (text : List ℕ) → Ensures (λ p. length p.1 < length text) (shift text)
shift-shorter [] = tt
shift-shorter (c ∷ rest) = omega arith

pub expect-shorter : (c : ℕ) (text : List ℕ) → Ensures (λ r. length r < length text) (expect c text)
expect-shorter c [] = tt
expect-shorter c (d ∷ rest) =
    Ensures-require (λ r. length r < suc (length rest)) (d == c) invalid (ok rest)
      (λ _. omega arith)

module _ (N : Numbers) where
  open N use {Number}

  abbrev pub IsValue : ℕ → ℕ → ℕ → Json Number × ℕ × List ℕ → Type 0
  IsValue depth = Reads (Fits depth) count_keys

  abbrev pub IsFields : ℕ → List (List ℕ) → ℕ → ℕ → Fields Number × ℕ × List ℕ → Type 0
  IsFields depth seen = Reads (FitsFields depth seen) count_keys_fields

  -- The elements of an array that has `count` of them already.
  abbrev pub FitsFrom : ℕ → ℕ → Items Number → Type 0
  FitsFrom depth count xs = (count + length_items xs ≤ limits.array) × FitsItems depth xs

  abbrev pub IsItems : ℕ → ℕ → ℕ → ℕ → Items Number × ℕ × List ℕ → Type 0
  IsItems depth count = Reads (FitsFrom depth count) count_keys_items

  pub IsValue-mono :
      (depth n : ℕ) {a b : ℕ} (m : Read (Json Number))
      → a ≤ b
      → Ensures (IsValue depth n a) m
      → Ensures (IsValue depth n b) m
  IsValue-mono depth n (ok r) h q = (q.0, q.1, q.2, omega arith)
  IsValue-mono depth n (err r) h q = tt
  IsValue-mono depth n out_of_fuel h q = q

  pub scalar-IsValue :
      (depth n : ℕ) (c : ℕ) (rest : List ℕ)
      → depth ≤ limits.depth
      → n ≤ limits.fields
      → Ensures (IsValue depth n (suc (length rest))) (scalar N n (c ∷ rest))
  unfolding scalar
  scalar-IsValue depth n c rest h g =
      let digits = number_length (take tail_length (c ∷ rest)) in
      ground (arith, length-drop-le 3 rest, length-drop-le 4 rest, length-drop-lt digits c rest)

  pub object-IsValue :
      (depth : ℕ) (members : Reader (Fields Number)) (n size : ℕ) (text : List ℕ)
      → depth ≤ limits.depth
      → n ≤ limits.fields
      → length text < size
      → Works (FitsFields (depth + 1) []) count_keys_fields size members
      → Ensures (IsValue depth n size) (object N members n text)
  unfolding object
  object-IsValue depth members n size [] h g lt m = tt
  object-IsValue depth members n size (c ∷ rest) h g lt m =
      Ensures-if (IsValue depth n size) (c == b'}') _ _
        (λ _. ((h, tt), omega arith, g, omega arith))
        λ _.
          Ensures-bind (IsFields (depth + 1) [] n (suc (length rest))) (IsValue depth n size)
            (members n (c ∷ rest)) _ (m n (c ∷ rest) g lt) λ r q. ((h, q.0), q.1, q.2, omega arith)

  pub array-IsValue :
      (depth : ℕ) (elements : Reader (Items Number)) (n size : ℕ) (text : List ℕ)
      → depth ≤ limits.depth
      → n ≤ limits.fields
      → length text < size
      → Works (FitsFrom (depth + 1) 0) count_keys_items size elements
      → Ensures (IsValue depth n size) (array N elements n text)
  unfolding array
  array-IsValue depth elements n size [] h g lt m = tt
  array-IsValue depth elements n size (c ∷ rest) h g lt m =
      Ensures-if (IsValue depth n size) (c == b']') _ _
        (λ _. ((h, omega arith, tt), omega arith, g, omega arith))
        λ _.
          Ensures-bind (IsItems (depth + 1) 0 n (suc (length rest))) (IsValue depth n size)
            (elements n (c ∷ rest)) _ (m n (c ∷ rest) g lt)
            λ r q. ((h, omega arith, q.0.1), q.1, q.2, omega arith)

  pub branch-IsValue :
      (depth : ℕ) (members : Reader (Fields Number)) (elements : Reader (Items Number)) (n : ℕ)
      (text : List ℕ)
      → depth ≤ limits.depth
      → n ≤ limits.fields
      → Works (FitsFields (depth + 1) []) count_keys_fields (length text) members
      → Works (FitsFrom (depth + 1) 0) count_keys_items (length text) elements
      → Ensures (IsValue depth n (length text)) (branch N members elements n text)
  unfolding branch
  branch-IsValue depth members elements n [] h g m x = tt
  branch-IsValue depth members elements n (c ∷ rest) h g m x =
      let size = suc (length rest) in
      let shorter : length (skip_space rest) < size = omega (arith, length-skip_space-le rest) in
      Ensures-if (IsValue depth n size) (c == quote) _ _
        (λ _.
          Ensures-bind (IsString rest) (IsValue depth n size) (string rest) _ (string-IsString rest)
            λ r q. ((h, q.0), omega arith, g, omega arith))
        λ _.
          Ensures-if (IsValue depth n size) (c == b'{') _ _
            (λ _. object-IsValue depth members n size (skip_space rest) h g shorter m)
            λ _.
              Ensures-if (IsValue depth n size) (c == b'[') _ _
                (λ _. array-IsValue depth elements n size (skip_space rest) h g shorter x)
                (λ _. scalar-IsValue depth n c rest h g)
