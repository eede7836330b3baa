-- ===== src/Web/Crypto/Base32/RoundTrip.antt =====
-- Decoding what `base32` encodes gives the bytes back. Between two bytes the encoder holds `b` bits,
-- the low bits of the byte `y` before, and the decoder the other bits of it, for b = 0, …, 4.
use get_exception.Base.{
  ℕ, ◌+◌, ◌-◌, ◌/◌, ◌%◌, ◌^◌, ◌<◌, ◌≡◌, refl, ap, zero, suc, List, [], ◌∷◌, arith, All, Bool, true,
  false, not, ◌&&◌, any, map, length, leb, ◌==◌, some, Bool-cases, inl, inr,
}
use get_exception.Base.Table.{All-append}
use mathlib.Core.Path.{ap₂}
use get_exception.Web.Crypto.Base32.{
  alphabet, item, index_of, places, rounds, digits_of, push_byte, push_digit, digit_at, encode,
  decode, base32, decode32,
}

abbrev IsByte : ℕ → Type 0
IsByte x = x < 256

-- The encoder's `b` bits and the decoder's other bits are those of `y`.
abbrev Split : ℕ → ℕ → ℕ → ℕ → Type 0
Split b y e d = (y < 256) × (d % 2 ^ (8 - b) ≡ y / 2 ^ b) × (e % 2 ^ b ≡ y % 2 ^ b)

last_1 : (y e d : ℕ) → Split 1 y e d → decode d 7 (encode e 1 []) ≡ y ∷ []
unfolding encode decode
last_1 y e d (s, h, g) = ap (λ (t : ℕ). t ∷ []) (omega arith)

last_2 : (y e d : ℕ) → Split 2 y e d → decode d 6 (encode e 2 []) ≡ y ∷ []
unfolding encode decode
last_2 y e d (s, h, g) = ap (λ (t : ℕ). t ∷ []) (omega arith)

last_3 : (y e d : ℕ) → Split 3 y e d → decode d 5 (encode e 3 []) ≡ y ∷ []
unfolding encode decode
last_3 y e d (s, h, g) = ap (λ (t : ℕ). t ∷ []) (omega arith)

last_4 : (y e d : ℕ) → Split 4 y e d → decode d 4 (encode e 4 []) ≡ y ∷ []
unfolding encode decode
last_4 y e d (s, h, g) = ap (λ (t : ℕ). t ∷ []) (omega arith)

-- The first digit of a byte, behind `b` bits of the byte before.
abbrev first : ℕ → ℕ → ℕ → ℕ
first b e x = digit_at (push_byte e x) (b + 8)

abbrev second : ℕ → ℕ → ℕ → ℕ
second b e x = digit_at (push_byte e x) (b + 3)

step_0 : (y e d x : ℕ) → x < 256 → Split 3 x (push_byte e x) (push_digit d (first 0 e x))
unfolding push_byte push_digit digit_at
step_0 y e d x lt = (lt, omega arith, omega arith)

step_1 :
    (y e d x : ℕ)
    → x < 256
    → Split 1 y e d
    → (push_digit d (first 1 e x) / 2 ^ 4 % 256 ≡ y)
      × Split 4 x (push_byte e x) (push_digit d (first 1 e x))
unfolding push_byte push_digit digit_at
step_1 y e d x lt (s, h, g) = (omega arith, (lt, omega arith, omega arith))

step_2 :
    (y e d x : ℕ)
    → x < 256
    → Split 2 y e d
    → (push_digit d (first 2 e x) / 2 ^ 3 % 256 ≡ y)
      × (push_digit (push_digit d (first 2 e x)) (second 2 e x) / 2 ^ 0 % 256 ≡ x)
unfolding push_byte push_digit digit_at
step_2 y e d x lt (s, h, g) = (omega arith, omega arith)

step_3 :
    (y e d x : ℕ)
    → x < 256
    → Split 3 y e d
    → (push_digit d (first 3 e x) / 2 ^ 2 % 256 ≡ y)
      × Split 1 x (push_byte e x) (push_digit (push_digit d (first 3 e x)) (second 3 e x))
unfolding push_byte push_digit digit_at
step_3 y e d x lt (s, h, g) = (omega arith, (lt, omega arith, omega arith))

step_4 :
    (y e d x : ℕ)
    → x < 256
    → Split 4 y e d
    → (push_digit d (first 4 e x) / 2 ^ 1 % 256 ≡ y)
      × Split 2 x (push_byte e x) (push_digit (push_digit d (first 4 e x)) (second 4 e x))
unfolding push_byte push_digit digit_at
step_4 y e d x lt (s, h, g) = (omega arith, (lt, omega arith, omega arith))

mutual
  unfolding encode decode

  from_0 : (e d : ℕ) (rest : List ℕ) → All IsByte rest → decode d 0 (encode e 0 rest) ≡ rest
  from_0 e d [] h = refl
  from_0 e d (x ∷ rest) h =
      from_3 x (push_byte e x) (push_digit d (first 0 e x)) rest (step_0 0 e d x h.0) h.1

  from_1 :
      (y e d : ℕ) (rest : List ℕ)
      → Split 1 y e d
      → All IsByte rest
      → decode d 7 (encode e 1 rest) ≡ y ∷ rest
  from_1 y e d [] s h = last_1 y e d s
  from_1 y e d (x ∷ rest) s h =
      let (out, split) = step_1 y e d x h.0 s in
      ap₂ ◌∷◌ out (from_4 x (push_byte e x) (push_digit d (first 1 e x)) rest split h.1)

  from_2 :
      (y e d : ℕ) (rest : List ℕ)
      → Split 2 y e d
      → All IsByte rest
      → decode d 6 (encode e 2 rest) ≡ y ∷ rest
  from_2 y e d [] s h = last_2 y e d s
  from_2 y e d (x ∷ rest) s h =
      let (out, next) = step_2 y e d x h.0 s in
      ap₂ ◌∷◌ out (
        ap₂ ◌∷◌ next (
          from_0 (push_byte e x) (push_digit (push_digit d (first 2 e x)) (second 2 e x)) rest h.1))

  from_3 :
      (y e d : ℕ) (rest : List ℕ)
      → Split 3 y e d
      → All IsByte rest
      → decode d 5 (encode e 3 rest) ≡ y ∷ rest
  from_3 y e d [] s h = last_3 y e d s
  from_3 y e d (x ∷ rest) s h =
      let (out, split) = step_3 y e d x h.0 s in
      ap₂ ◌∷◌ out (
        from_1 x (push_byte e x) (push_digit (push_digit d (first 3 e x)) (second 3 e x)) rest split
          h.1)

  from_4 :
      (y e d : ℕ) (rest : List ℕ)
      → Split 4 y e d
      → All IsByte rest
      → decode d 4 (encode e 4 rest) ≡ y ∷ rest
  from_4 y e d [] s h = last_4 y e d s
  from_4 y e d (x ∷ rest) s h =
      let (out, split) = step_4 y e d x h.0 s in
      ap₂ ◌∷◌ out (
        from_2 x (push_byte e x) (push_digit (push_digit d (first 4 e x)) (second 4 e x)) rest split
          h.1)

-- Texts

abbrev IsDigit : ℕ → Type 0
IsDigit d = d < 32

digits_of-IsDigit : (n value bits : ℕ) → All IsDigit (digits_of n value bits).0
unfolding digits_of digit_at
digits_of-IsDigit zero value bits = tt
digits_of-IsDigit (suc n) value bits = elim (Bool-cases (leb 5 bits)) [
  | inl e ↦ rw e (omega arith, digits_of-IsDigit n value (bits - 5))
  | inr e ↦ rw e tt
]

encode-IsDigit : (value bits : ℕ) (bytes : List ℕ) → All IsDigit (encode value bits bytes)
unfolding encode
encode-IsDigit value bits [] = elim (Bool-cases (bits == 0)) [
  | inl e ↦ rw e tt
  | inr e ↦ rw e (omega arith, tt)
]
encode-IsDigit value bits (byte ∷ rest) =
    All-append IsDigit _ _ (digits_of-IsDigit rounds (push_byte value byte) (bits + 8))
      (encode-IsDigit (push_byte value byte) _ rest)

abbrev all_apart : List ℕ → Bool
all_apart [] = true
all_apart (c ∷ cs) = not (any (λ d. d == c) cs) && all_apart cs

item-other :
    (c d : ℕ) (cs : List ℕ)
    → any (λ e. e == c) cs ≡ false
    → d < length cs
    → (c == item d cs) ≡ false
item-other c d [] h lt = ground (arith, lt)
item-other c zero (e ∷ cs) h lt = ground (arith, h)
item-other c (suc d) (e ∷ cs) h lt = item-other c d cs (ground (arith, h)) (omega (arith, lt))

-- Where no character stands twice, a place is found again.
index_of-item :
    (d : ℕ) (cs : List ℕ) → all_apart cs ≡ true → d < length cs → index_of (item d cs) cs ≡ some d
unfolding index_of
index_of-item d [] h lt = ground (arith, lt)
index_of-item zero (c ∷ cs) h lt = ground arith
index_of-item (suc d) (c ∷ cs) h lt = rw (
  item-other c d cs (ground (arith, h)) (omega (arith, lt)),
  index_of-item d cs (ground (arith, h)) (omega (arith, lt)),
)

places-map : (ds : List ℕ) → All IsDigit ds → places (map (λ d. item d alphabet) ds) ≡ some ds
unfolding places
places-map [] h = refl
places-map (d ∷ ds) h = rw (index_of-item d alphabet refl h.0, places-map ds h.1)

-- A secret of any number of bytes is read back from its base32 text.
pub decode32-base32 : (bytes : List ℕ) → All IsByte bytes → decode32 (base32 bytes) ≡ some bytes
unfolding decode32 base32
decode32-base32 bytes h =
    rw (places-map (encode 0 0 bytes) (encode-IsDigit 0 0 bytes)) (ap some (from_0 0 0 bytes h))
