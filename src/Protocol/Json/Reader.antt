-- ===== src/Protocol/Json/Reader.antt =====
-- `boundedJson` and its inner function `value`, by recursion on fuel. The loop over the members of
-- an object and the loop over the elements of an array are functions of their own; a round of a loop
-- takes the reader of a value, and the rest of the loop, as arguments.
pub mod Spec
pub mod Branches
pub mod Rounds
pub mod Bounds
pub mod Tests
use get_exception.Base.{
  ℕ, zero, suc, ◌+◌, ◌*◌, Bool, true, false, not, ◌||◌, Option, none, some, List, [], ◌∷◌, length,
  take, drop, any, ltb, leb, ◌==◌, ◌===◌, if◌then◌else◌, String, Eq, list_eq, codes,
}
use get_exception.Protocol.Boundary.{
  Outcome, ok, err, out_of_fuel, invalid, too_large, ◌>>=◌, ◌>>◌, require,
}
use get_exception.Protocol.Json.{
  Json, null, bool, num, str, arr, obj, Items, nil, cons, Fields, end, field, Numbers, limits,
}
use get_exception.Protocol.Json.Literal.{
  quote, skip_space, utf8_length, string, number_length, starts_with,
}

-- What is read, with the object keys counted so far and the text left.
abbrev pub Read : Type 0 → Type 0
Read A = Outcome (A × ℕ × List ℕ)

abbrev pub Reader : Type 0 → Type 0
Reader A = ℕ → List ℕ → Read A

abbrev pub forbidden : List (List ℕ)
forbidden = codes "__proto__" ∷ codes "constructor" ∷ codes "prototype" ∷ []

abbrev pub contains : List (List ℕ) → List ℕ → Bool
contains keys key = any (λ k. k === key) keys

-- `text[i++]`, which no token of the source equals at the end of the text.
abbrev pub shift : List ℕ → Outcome (ℕ × List ℕ)
shift [] = err invalid
shift (c ∷ rest) = ok (c, rest)

-- `if (text[i++] !== c) { fail(); }`
abbrev pub expect : ℕ → List ℕ → Outcome (List ℕ)
expect c text = do (d, rest) ← shift text; require (d == c) invalid; ok rest

abbrev pub tail_length : ℕ
tail_length = 64

-- `if (i !== text.length) { fail(); }`
abbrev pub ends : List ℕ → Outcome (Unit {0})
ends [] = ok tt
ends (c ∷ rest) = err invalid

abbrev pub fuel_for : List ℕ → ℕ
fuel_for text = suc (2 * length text)

module _ (N : Numbers) where
  open N use {Number, of_text}

  -- A keyword or a number, looked for in the next 64 code units.
  pub scalar : Reader (Json Number)
  unfolding starts_with number_length
  scalar n text =
      let tail = take tail_length text in
      let digits = number_length tail in
      if starts_with tail (codes "true")
      then ok (bool true, n, drop 4 text)
      else (if starts_with tail (codes "false")
          then ok (bool false, n, drop 5 text)
          else (if starts_with tail (codes "null")
              then ok (null, n, drop 4 text)
              else (if digits == 0 then err invalid else elim (of_text (take digits tail)) [
                | none ↦ err invalid
                | some x ↦ ok (num x, n, drop digits text)
              ])))

  -- Behind `{` and white space.
  pub object : Reader (Fields Number) → Reader (Json Number)
  object members n [] = err invalid
  object members n (c ∷ rest) =
      if c == b'}'
      then ok (obj end, n, rest)
      else (do (fs, n', after) ← members n (c ∷ rest); ok (obj fs, n', after))

  -- Behind `[` and white space.
  pub array : Reader (Items Number) → Reader (Json Number)
  array elements n [] = err invalid
  array elements n (c ∷ rest) =
      if c == b']'
      then ok (arr nil, n, rest)
      else (do (xs, n', after) ← elements n (c ∷ rest); ok (arr xs, n', after))

  -- The branches of `value`, behind white space.
  pub branch : Reader (Fields Number) → Reader (Items Number) → Reader (Json Number)
  unfolding scalar object array string skip_space
  branch members elements n [] = err invalid
  branch members elements n (c ∷ rest) =
      if c == quote
      then (do (t, after) ← string rest; ok (str t, n, after))
      else (if c == b'{'
          then object members n (skip_space rest)
          else (if c == b'[' then array elements n (skip_space rest) else scalar n (c ∷ rest)))

  -- One round of the loop over the members of an object whose keys so far are `seen`.
  pub member :
      Reader (Json Number)
      → (List (List ℕ) → Reader (Fields Number))
      → List (List ℕ)
      → Reader (Fields Number)
  unfolding string skip_space
  member value more seen n text = do
    opened ← expect quote (skip_space text)
    (key, after_key) ← string opened
    require (not (contains forbidden key || contains seen key || ltb limits.fields (n + 1))) invalid
    colon ← expect b':' (skip_space after_key)
    (v, n', after) ← value (n + 1) colon
    (c, rest) ← shift (skip_space after)
    if c == b'}'
        then ok (field key v end, n', rest)
        else (if c == b','
            then (do (fs, n'', left) ← more (key ∷ seen) n' rest; ok (field key v fs, n'', left))
            else err invalid)

  -- One round of the loop over the elements of an array that has `count` of them so far.
  pub element : Reader (Json Number) → (ℕ → Reader (Items Number)) → ℕ → Reader (Items Number)
  unfolding skip_space
  element value more count n [] = err invalid
  element value more count n (u ∷ text) = do
    require (ltb count limits.array) too_large
    (v, n', after) ← value n (u ∷ text)
    (c, rest) ← shift (skip_space after)
    if c == b']'
        then ok (cons v nil, n', rest)
        else (if c == b','
            then (do (xs, n'', left) ← more (count + 1) n' rest; ok (cons v xs, n'', left))
            else err invalid)

  unfoldable mutual
    unfolding branch member element skip_space

    pub value : ℕ → ℕ → Reader (Json Number)
    value zero depth n text = out_of_fuel
    value (suc fuel) depth n text = do
      require (leb depth limits.depth) too_large
      branch (members fuel (depth + 1) []) (elements fuel (depth + 1) 0) n (skip_space text)

    pub members : ℕ → ℕ → List (List ℕ) → Reader (Fields Number)
    members zero depth seen n text = out_of_fuel
    members (suc fuel) depth seen n text =
        member (value fuel depth) (members fuel depth) seen n text

    pub elements : ℕ → ℕ → ℕ → Reader (Items Number)
    elements zero depth count n text = out_of_fuel
    elements (suc fuel) depth count n text =
        element (value fuel depth) (elements fuel depth) count n text

  unfoldable pub bounded_json : List ℕ → ℕ → Outcome (Json Number)
  unfolding value utf8_length skip_space
  bounded_json text max_bytes = do
    require (leb (utf8_length text) max_bytes) too_large
    (v, n, rest) ← value (fuel_for text) 0 0 text
    ends (skip_space rest)
    ok v
