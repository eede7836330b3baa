-- ===== src/Web/Crypto/Base32.antt =====
-- `base32` and `decode32`. `value` is a 32-bit pattern: the source reads it by `>>>` and `&` only. A
-- text is the list of its character codes. The loops stand on the places of the characters in the
-- alphabet: `base32` writes each character in turn, and `decode32` throws at the first that is
-- foreign, which nothing else of the loop can tell.
pub mod RoundTrip
use get_exception.Base.{
  ℕ, zero, suc, ◌+◌, ◌-◌, ◌*◌, ◌/◌, ◌%◌, ◌^◌, Option, none, some, List, [], ◌∷◌, ◌++◌, ltb, leb,
  ◌==◌, if◌then◌else◌, codes, map,
}

abbrev pub word : ℕ
word = 2 ^ 32

abbrev pub alphabet : List ℕ
alphabet = codes "ABCDEFGHIJKLMNOPQRSTUVWXYZ234567"

-- `alphabet[i]`; the places that the program reads are below 32.
abbrev pub item : ℕ → List ℕ → ℕ
item i [] = 0
item zero (c ∷ cs) = c
item (suc i) (c ∷ cs) = item i cs

abbrev pub later : Option ℕ → Option ℕ
later none = none
later (some i) = some (suc i)

-- `alphabet.indexOf(c)`, with `none` for -1.
pub index_of : ℕ → List ℕ → Option ℕ
index_of c [] = none
index_of c (d ∷ cs) = let rest = index_of c cs in if d == c then some zero else later rest

abbrev pub push : Option ℕ → Option (List ℕ) → Option (List ℕ)
push none rest = none
push (some d) none = none
push (some d) (some ds) = some (d ∷ ds)

-- The places of a text's characters; `none` is the error "Invalid credential".
pub places : List ℕ → Option (List ℕ)
unfolding index_of
places [] = some []
places (c ∷ text) = push (index_of c alphabet) (places text)

-- (value << 8) | byte and (value << 5) | digit
pub push_byte : ℕ → ℕ → ℕ
push_byte value byte = value * 2 ^ 8 % word + byte

pub push_digit : ℕ → ℕ → ℕ
push_digit value digit = value * 2 ^ 5 % word + digit

-- (value >>> (bits - 5)) & 31
pub digit_at : ℕ → ℕ → ℕ
digit_at value bits = value / 2 ^ (bits - 5) % 32

-- `while (bits >= 5)`: at most twelve bits are buffered, so two rounds and a third that stops.
pub digits_of : ℕ → ℕ → ℕ → List ℕ × ℕ
unfolding digit_at
digits_of zero value bits = ([], bits)
digits_of (suc rounds) value bits =
    let (out, left) = digits_of rounds value (bits - 5) in
    if leb 5 bits then (digit_at value bits ∷ out, left) else ([], bits)

abbrev pub rounds : ℕ
rounds = 3

-- The rest of the loop over the bytes, and the last digit.
pub encode : ℕ → ℕ → List ℕ → List ℕ
unfolding digits_of push_byte
encode value bits [] = if bits == 0 then [] else value * 2 ^ (5 - bits) % word % 32 ∷ []
encode value bits (byte ∷ rest) =
    let value' = push_byte value byte in
    let (out, left) = digits_of rounds value' (bits + 8) in out ++ encode value' left rest

unfoldable pub base32 : List ℕ → List ℕ
unfolding encode
base32 bytes = map (λ d. item d alphabet) (encode 0 0 bytes)

-- The loop of `decode32` over the digits.
pub decode : ℕ → ℕ → List ℕ → List ℕ
unfolding push_digit
decode value bits [] = []
decode value bits (digit ∷ rest) =
    let value' = push_digit value digit in
    let short = decode value' (bits + 5) rest in
    let full = value' / 2 ^ (bits + 5 - 8) % 256 ∷ decode value' (bits + 5 - 8) rest in
    if leb 8 (bits + 5) then full else short

abbrev pub decoded : Option (List ℕ) → Option (List ℕ)
decoded none = none
decoded (some digits) = some (decode 0 0 digits)

-- The bytes of a text; `none` is the error that it throws.
unfoldable pub decode32 : List ℕ → Option (List ℕ)
unfolding decode places
decode32 text = decoded (places text)
