-- ===== src/Protocol/Json/Literal.antt =====
-- The tokens of json.ts: white space, string literals with their escapes, numbers and keywords.
pub mod Bounds
use get_exception.Base.{
  ℕ, suc, ◌+◌, ◌-◌, ◌*◌, ◌≡◌, refl, Bool, true, false, not, ◌&&◌, ◌||◌, Option, none, some, List,
  [], ◌∷◌, ◌++◌, arith, length, take, drop, ltb, leb, ◌==◌, if◌then◌else◌,
}
use get_exception.Protocol.Boundary.{Outcome, ok, err, invalid, too_large, ◌>>=◌}
use get_exception.Protocol.Json.{limits}

abbrev pub quote : ℕ
quote = 0x22

abbrev pub backslash : ℕ
backslash = 0x5c

is_space : ℕ → Bool
is_space c = c == 0x20 || c == 0x09 || c == 0x0d || c == 0x0a

unfoldable pub skip_space : List ℕ → List ℕ
unfolding is_space
skip_space [] = []
skip_space (c ∷ rest) = if is_space c then skip_space rest else c ∷ rest

-- The bytes of the text in UTF-8, as `TextEncoder` writes them: a lone surrogate is replaced by
-- U+FFFD, in three bytes. The flag says that the unit before was a high surrogate, counted as 3.
utf8_bytes : Bool → List ℕ → ℕ
utf8_bytes high [] = 0
utf8_bytes high (c ∷ rest) =
    let low = leb 0xdc00 c && leb c 0xdfff in
    (if ltb c 0x80 then 1 else (if ltb c 0x800 then 2 else (if high && low then 1 else 3)))
    + utf8_bytes (leb 0xd800 c && leb c 0xdbff) rest

unfoldable pub utf8_length : List ℕ → ℕ
unfolding utf8_bytes
utf8_length t = utf8_bytes false t

hex_digit : ℕ → Option ℕ
hex_digit c =
    if leb b'0' c && leb c b'9'
    then some (c - b'0')
    else (if leb b'a' c && leb c b'f'
        then some (c - 87)
        else (if leb b'A' c && leb c b'F' then some (c - 55) else none))

short_escape : ℕ → Option ℕ
short_escape c =
    if c == quote || c == backslash || c == b'/'
    then some c
    else (if c == b'b'
        then some 8
        else (if c == b'f'
            then some 12
            else (if c == b'n'
                then some 10
                else (if c == b'r' then some 13 else (if c == b't' then some 9 else none)))))

-- Where `JSON.parse` stands inside a string literal.
pub data Mode : Type 0 where
  plain escape : Mode
  hex : ℕ → ℕ → Mode

-- One code unit: the next mode, and the unit that it completes.
next : Mode → ℕ → Option (Mode × Option ℕ)
unfolding hex_digit short_escape
next plain c =
    if c == backslash
    then some (escape, none)
    else (if c == quote || ltb c 32 then none else some (plain, some c))
next escape c =
    if c == b'u'
    then some (hex 4 0, none)
    else elim (short_escape c) [ none ↦ none | some u ↦ some (plain, some u) ]
next (hex left v) c = elim (hex_digit c) [
  | none ↦ none
  | some d ↦
      if left == 1
      then some (plain, some (v * 16 + d))
      else some (hex (left - 1) (v * 16 + d), none)
]

emit : Option ℕ → Option (List ℕ) → Option (List ℕ)
emit u none = none
emit none (some t) = some t
emit (some c) (some t) = some (c ∷ t)

-- `JSON.parse` of a string literal, without its quotes: `none` where it throws.
decode : Mode → List ℕ → Option (List ℕ)
unfolding next emit
decode plain [] = some []
decode _ [] = none
decode m (c ∷ rest) = elim (next m c) [ none ↦ none | some (m', u) ↦ emit u (decode m' rest) ]

-- The loop of `string()` up to the closing quote: the text between the quotes, and what follows.
-- `count` is `length`, and the flag says that a backslash has just been passed.
scan : ℕ → Bool → List ℕ → Outcome (List ℕ × List ℕ)
scan count escaped [] = err invalid
scan count true (c ∷ rest) = do (raw, after) ← scan count false rest; ok (c ∷ raw, after)
scan count false (c ∷ rest) =
    let more = scan (count + 1) (c == backslash) rest in
    if c == quote
    then ok ([], rest)
    else (if ltb (limits.string * 6) (count + 1)
        then err too_large
        else (if not (c == backslash) && ltb c 32
            then err invalid
            else (do (raw, after) ← more; ok (c ∷ raw, after))))

-- `string()`, from behind the opening quote.
unfoldable pub string : List ℕ → Outcome (List ℕ × List ℕ)
unfolding scan decode
string text = do
  (raw, after) ← scan 0 false text
  elim (decode plain raw) [
    | none ↦ err invalid
    | some t ↦ if leb (length t) limits.string then ok (t, after) else err invalid
  ]

is_digit : ℕ → Bool
is_digit c = leb b'0' c && leb c b'9'

digit_run : List ℕ → ℕ
unfolding is_digit
digit_run [] = 0
digit_run (c ∷ rest) = if is_digit c then suc (digit_run rest) else 0

starts : (ℕ → Bool) → List ℕ → Bool
starts p [] = false
starts p (c ∷ rest) = p c

-- The parts of `-?(?:0|[1-9]\d*)(?:\.\d+)?(?:[eE][+-]?\d+)?` at the front of a text, by their length.
integer_length : List ℕ → ℕ
unfolding digit_run is_digit
integer_length [] = 0
integer_length (c ∷ rest) =
    if c == b'0' then 1 else (if is_digit c then suc (digit_run rest) else 0)

fraction_length : List ℕ → ℕ
unfolding digit_run
fraction_length [] = 0
fraction_length (c ∷ rest) =
    if c == b'.' && not (digit_run rest == 0) then suc (digit_run rest) else 0

exponent_length : List ℕ → ℕ
unfolding digit_run starts
exponent_length [] = 0
exponent_length (c ∷ rest) =
    let sign : ℕ = if starts (λ s. s == b'+' || s == b'-') rest then 1 else 0 in
    let digits = digit_run (drop sign rest) in
    if (c == b'e' || c == b'E') && not (digits == 0) then 1 + sign + digits else 0

-- 0 where the expression does not match.
unfoldable pub number_length : List ℕ → ℕ
unfolding integer_length fraction_length exponent_length starts
number_length t =
    let sign : ℕ = if starts (λ c. c == b'-') t then 1 else 0 in
    let whole = integer_length (drop sign t) in
    let fraction = fraction_length (drop (sign + whole) t) in
    if whole == 0
    then 0
    else sign + whole + fraction + exponent_length (drop (sign + whole + fraction) t)

unfoldable pub starts_with : List ℕ → List ℕ → Bool
starts_with text [] = true
starts_with [] (p ∷ ps) = false
starts_with (c ∷ text) (p ∷ ps) = c == p && starts_with text ps
