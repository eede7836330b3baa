-- ===== src/Protocol/Json/Literal/Bounds.antt =====
-- Tokens are taken from the front of the text, and a string is within its limit.
use get_exception.Base.{
  ℕ, zero, suc, ◌+◌, ◌*◌, ◌≤◌, ◌<◌, ◌≡◌, Bool, true, false, ◌&&◌, not, Option, none, some, List, [],
  ◌∷◌, arith, length, drop, ltb, leb, ◌==◌, if◌then◌else◌,
}
use get_exception.Protocol.Boundary.{Outcome, ok, err, ◌>>=◌, invalid}
use get_exception.Protocol.Boundary.Ensures.{Ensures, Ensures-bind, Ensures-if}
use get_exception.Protocol.Json.{limits}
use get_exception.Protocol.Json.Literal.{quote, backslash, skip_space, plain, decode, scan, string}

pub length-skip_space-le : (text : List ℕ) → length (skip_space text) ≤ length text
unfolding skip_space
length-skip_space-le [] = omega arith
length-skip_space-le (c ∷ rest) = ground (arith, length-skip_space-le rest)

pub length-drop-le : (n : ℕ) (text : List ℕ) → length (drop n text) ≤ length text
length-drop-le zero text = omega arith
length-drop-le (suc n) [] = omega arith
length-drop-le (suc n) (c ∷ rest) = omega (arith, length-drop-le n rest)

pub length-drop-lt :
    (n c : ℕ) (rest : List ℕ) → (n == 0) ≡ false → length (drop n (c ∷ rest)) ≤ length rest
length-drop-lt zero c rest h = cc
length-drop-lt (suc n) c rest h = length-drop-le n rest

abbrev Rest : List ℕ → List ℕ × List ℕ → Type 0
Rest text p = length p.1 < length text

Rest-mono :
    (c : ℕ) (text : List ℕ) (m : Outcome (List ℕ × List ℕ))
    → Ensures (Rest text) m
    → Ensures (Rest (c ∷ text)) (m >>= λ p. ok (c ∷ p.0, p.1))
Rest-mono c text m h = Ensures-bind (Rest text) (Rest (c ∷ text)) m _ h (λ p g. omega arith)

scan-Rest :
    (count : ℕ) (escaped : Bool) (text : List ℕ) → Ensures (Rest text) (scan count escaped text)
unfolding scan
scan-Rest count true [] = tt
scan-Rest count false [] = tt
scan-Rest count true (c ∷ rest) =
    Rest-mono c rest (scan count false rest) (scan-Rest count false rest)
scan-Rest count false (c ∷ rest) =
    let more = scan (count + 1) (c == backslash) rest in
    Ensures-if (Rest (c ∷ rest)) (c == quote) _ _ (λ _. omega arith)
      λ _.
        Ensures-if (Rest (c ∷ rest)) (ltb (limits.string * 6) (count + 1)) _ _ (λ _. tt)
          λ _.
            Ensures-if (Rest (c ∷ rest)) (not (c == backslash) && ltb c 32) _ _ (λ _. tt)
              λ _. Rest-mono c rest more (scan-Rest (count + 1) (c == backslash) rest)

-- A string that is read has at most `limits.string` code units, and is taken off the text.
abbrev pub IsString : List ℕ → List ℕ × List ℕ → Type 0
IsString text p = (length p.0 ≤ limits.string) × (length p.1 < length text)

decoded :
    (text after : List ℕ) (o : Option (List ℕ))
    → length after < length text
    → Ensures (IsString text) (elim o [
      | none ↦ err invalid
      | some t ↦ if leb (length t) limits.string then ok (t, after) else err invalid
    ])
decoded text after none h = tt
decoded text after (some t) h =
    Ensures-if (IsString text) (leb (length t) limits.string) _ _ (λ b. ground arith) (λ _. tt)

pub string-IsString : (text : List ℕ) → Ensures (IsString text) (string text)
unfolding string
string-IsString text =
    Ensures-bind (Rest text) (IsString text) (scan 0 false text) _ (scan-Rest 0 false text)
      λ p h. decoded text p.1 (decode plain p.0) h
