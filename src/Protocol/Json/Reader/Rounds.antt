-- ===== src/Protocol/Json/Reader/Rounds.antt =====
-- A round of either loop keeps the budgets and shortens the text.
use get_exception.Base.{
  ℕ, suc, ◌+◌, ◌≤◌, ◌<◌, ◌≡◌, Bool, true, false, not, ◌||◌, List, [], ◌∷◌, arith, length, ltb, ◌==◌,
  if◌then◌else◌, tests, ltb→lt,
}
use get_exception.Protocol.Boundary.{ok, err, invalid, too_large, ◌>>=◌}
use get_exception.Protocol.Boundary.Ensures.{Ensures, Ensures-bind, Ensures-require, Ensures-if}
use get_exception.Protocol.Json.{Json, Items, Fields, end, field, Numbers, limits}
use get_exception.Protocol.Json.Literal.{quote, skip_space, string}
use get_exception.Protocol.Json.Literal.Bounds.{length-skip_space-le, IsString, string-IsString}
use get_exception.Protocol.Json.Reader.{Reader, contains, forbidden, shift, expect, member, element}
use get_exception.Protocol.Json.Reader.Spec.{
  count_keys, count_keys_items, count_keys_fields, Fits, FitsFields,
}
use get_exception.Protocol.Json.Reader.Branches.{
  Reads, Works, IsValue, IsFields, FitsFrom, IsItems, shift-shorter, expect-shorter,
}

module _ (N : Numbers) where
  open N use {Number}

  -- Behind the value of a member: the end of the object, or the next round.
  pub member_end :
      (depth : ℕ) (more : Reader (Fields Number)) (seen : List (List ℕ)) (key : List ℕ) (n size : ℕ)
      (r : Json Number × ℕ × List ℕ)
      → contains forbidden key ≡ false
      → contains seen key ≡ false
      → length key ≤ limits.string
      → Reads (Fits depth) count_keys (n + 1) size r
      → Works (FitsFields depth (key ∷ seen)) count_keys_fields size more
      → Ensures (IsFields N depth seen n size) (do
        (c, rest) ← shift (skip_space r.2)
        if c == b'}'
            then ok (field key r.0 end, r.1, rest)
            else (if c == b','
                then (do (fs, n'', left) ← more r.1 rest; ok (field key r.0 fs, n'', left))
                else err invalid))
  member_end depth more seen key n size r f s l q m =
      let after = skip_space r.2 in
      let fewer : length after < size = omega (arith, length-skip_space-le r.2) in
      Ensures-bind (λ p. length p.1 < length after) (IsFields N depth seen n size) (shift after) _
        (shift-shorter after)
        λ p lt.
          Ensures-if (IsFields N depth seen n size) (p.0 == b'}') _ _
            (λ _. ((f, s, l, q.0, tt), omega arith, q.2, omega arith))
            λ _.
              Ensures-if (IsFields N depth seen n size) (p.0 == b',') _ _
                (λ _.
                  Ensures-bind (IsFields N depth (key ∷ seen) r.1 (length p.1))
                    (IsFields N depth seen n size) (more r.1 p.1) _ (m r.1 p.1 q.2 (omega arith))
                    λ t g. ((f, s, l, q.0, g.0), omega arith, g.2, omega arith))
                (λ _. tt)

  pub fresh_key :
      (seen : List (List ℕ)) (key : List ℕ) (n : ℕ)
      → not (contains forbidden key || contains seen key || ltb limits.fields (n + 1)) ≡ true
      → (contains forbidden key ≡ false) × (contains seen key ≡ false) × (n + 1 ≤ limits.fields)
  fresh_key seen key n h = fresh (contains forbidden key) (contains seen key) h
    where
      fresh :
          (f s : Bool)
          → not (f || s || ltb limits.fields (n + 1)) ≡ true
          → (f ≡ false) × (s ≡ false) × (n + 1 ≤ limits.fields)
      fresh f s h = ground arith

  pub member-IsFields :
      (depth : ℕ) (read_value : Reader (Json Number))
      (more : List (List ℕ) → Reader (Fields Number)) (seen : List (List ℕ)) (n : ℕ) (text : List ℕ)
      → n ≤ limits.fields
      → Works (Fits depth) count_keys (length text) read_value
      → ((keys : List (List ℕ))
          → Works (FitsFields depth keys) count_keys_fields (length text) (more keys))
      → Ensures (IsFields N depth seen n (length text)) (member N read_value more seen n text)
  unfolding member
  member-IsFields depth read_value more seen n text g v m =
      let R = IsFields N depth seen n (length text) in
      let start = skip_space text in
      Ensures-bind (λ t. length t < length start) R (expect quote start) _
        (expect-shorter quote start)
        λ opened lt.
          Ensures-bind (IsString opened) R (string opened) _ (string-IsString opened) λ k lk.
            Ensures-require R _ invalid _ λ b.
              Ensures-bind (λ t. length t < length (skip_space k.1)) R
                (expect b':' (skip_space k.1)) _ (expect-shorter b':' (skip_space k.1))
                λ colon lc.
                  let lens : length colon < length text =
                    omega (arith, length-skip_space-le text, length-skip_space-le k.1) in
                  let (f, s, room) = fresh_key seen k.0 n b in
                  Ensures-bind (IsValue N depth (n + 1) (length colon)) R (read_value (n + 1) colon)
                    _ (v (n + 1) colon room lens)
                    λ r q.
                      member_end depth (more (k.0 ∷ seen)) seen k.0 n (length text) r f s lk.0
                        (q.0, q.1, q.2, omega arith) (m (k.0 ∷ seen))

  pub element-IsItems :
      (depth : ℕ) (read_value : Reader (Json Number)) (more : ℕ → Reader (Items Number))
      (count n : ℕ) (text : List ℕ)
      → n ≤ limits.fields
      → Works (Fits depth) count_keys (suc (length text)) read_value
      → Works (FitsFrom N depth (count + 1)) count_keys_items (length text) (more (count + 1))
      → Ensures (IsItems N depth count n (length text)) (element N read_value more count n text)
  unfolding element
  element-IsItems depth read_value more count n [] g v m = tt
  element-IsItems depth read_value more count n (u ∷ text) g v m =
      let size = suc (length text) in
      let R = IsItems N depth count n size in
      Ensures-require R (ltb count limits.array) too_large _ λ room.
        Ensures-bind (IsValue N depth n size) R (read_value n (u ∷ text)) _
          (v n (u ∷ text) g (omega arith))
          λ r q.
            let after = skip_space r.2 in
            Ensures-bind (λ p. length p.1 < length after) R (shift after) _ (shift-shorter after)
              λ p lt.
                let fewer : length p.1 < size = omega (arith, length-skip_space-le r.2) in
                Ensures-if R (p.0 == b']') _ _
                  (λ _. (
                    (omega (tests, ltb→lt count limits.array room), (q.0, tt)),
                    omega arith,
                    q.2,
                    fewer,
                  ))
                  λ _.
                    Ensures-if R (p.0 == b',') _ _
                      (λ _.
                        Ensures-bind (IsItems N depth (count + 1) r.1 (length p.1)) R
                          (more (count + 1) r.1 p.1) _ (m r.1 p.1 q.2 fewer)
                          λ t g'. ((omega arith, (q.0, g'.0.1)), omega arith, g'.2, omega arith))
                      (λ _. tt)
