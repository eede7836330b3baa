-- ===== src/Web/Crypto/Totp.antt =====
-- `totp` and `verifyTotp`. HMAC-SHA1 is a parameter. A code is the list of its character codes, and a
-- `lastCounter` of -1n, which no code has used, is `none`.
pub mod Laws
use get_exception.Base.{
  ℕ, zero, suc, ◌+◌, ◌*◌, ◌/◌, ◌%◌, ◌^◌, Bool, true, false, ◌&&◌, Option, none, some, List, [], ◌∷◌,
  ◌++◌, all, drop, length, ltb, leb, ◌==◌, ◌===◌, list_eq, if◌then◌else◌,
}
use get_exception.Web.Crypto.Base32.{decode32}

-- `createHmac("sha1", key).update(input).digest()`
abbrev pub Hmac : Type 0
Hmac = List ℕ → List ℕ → List ℕ

-- `writeBigUInt64BE`: the lowest `n` bytes, the highest first.
pub big_endian : ℕ → ℕ → List ℕ
big_endian zero v = []
big_endian (suc n) v = big_endian n (v / 256) ++ (v % 256 ∷ [])

abbrev pub byte_at : ℕ → List ℕ → ℕ
byte_at i [] = 0
byte_at zero (b ∷ rest) = b
byte_at (suc i) (b ∷ rest) = byte_at i rest

-- `readUInt32BE(offset) & 0x7fffffff`
pub read_31 : List ℕ → ℕ → ℕ
read_31 mac offset =
    (byte_at offset mac * 2 ^ 24
      + byte_at (offset + 1) mac * 2 ^ 16
      + byte_at (offset + 2) mac * 2 ^ 8
      + byte_at (offset + 3) mac)
    % 2 ^ 31

-- `String(v).padStart(6, "0")` of a number below 1000000: its lowest `n` decimal digits.
pub decimal : ℕ → ℕ → List ℕ
decimal zero v = []
decimal (suc n) v = decimal n (v / 10) ++ ((b'0' + v % 10) ∷ [])

-- The code of a counter under a key.
unfoldable pub code_of : Hmac → List ℕ → ℕ → List ℕ
unfolding big_endian read_31 decimal
code_of hmac key counter =
    let mac = hmac key (big_endian 8 counter) in
    decimal 6 (read_31 mac (byte_at 19 mac % 16) % 1000000)

abbrev pub coded : Hmac → ℕ → Option (List ℕ) → Option (List ℕ)
coded hmac counter none = none
coded hmac counter (some key) = some (code_of hmac key counter)

-- `none` is the error of a secret that is no base32 text.
unfoldable pub totp : Hmac → List ℕ → ℕ → Option (List ℕ)
unfolding decode32 code_of
totp hmac secret counter = coded hmac counter (decode32 secret)

abbrev pub is_digit : ℕ → Bool
is_digit c = leb b'0' c && leb c b'9'

-- /^\d{6}$/
unfoldable pub is_code : List ℕ → Bool
is_code code = length code == 6 && all is_digit code

-- `period > lastCounter`
abbrev pub is_after : ℕ → Option ℕ → Bool
is_after period none = true
is_after period (some last) = ltb last period

-- The periods of the loop over the deltas -1, 0 and 1 that are not negative.
unfoldable pub window : ℕ → List ℕ
window zero = 0 ∷ 1 ∷ []
window (suc n) = n ∷ suc n ∷ suc (suc n) ∷ []

module _ (hmac : Hmac) (key code : List ℕ) (last : Option ℕ) where
  abbrev pub accepts : ℕ → Bool
  accepts period = (code_of hmac key period === code) && is_after period last

  -- The loop: a later match replaces an earlier one.
  pub scan : Option ℕ → List ℕ → Option ℕ
  unfolding code_of
  scan match [] = match
  scan match (period ∷ rest) = scan (if accepts period then some period else match) rest

-- The loop behind the decoding of the secret, which every round repeats: it throws in the first
-- round or in none.
abbrev pub scan_with : Hmac → Option (List ℕ) → List ℕ → Option ℕ → List ℕ → Option (Option ℕ)
scan_with hmac none code last periods = none
scan_with hmac (some key) code last periods = some (scan hmac key code last none periods)

-- `none` is the error that it throws, and `some none` its null.
unfoldable pub verify_totp : Hmac → List ℕ → List ℕ → Option ℕ → ℕ → Option (Option ℕ)
unfolding decode32 is_code window scan
verify_totp hmac secret code last now =
    if is_code code
    then scan_with hmac (decode32 secret) code last (window (now / 30000))
    else some none
