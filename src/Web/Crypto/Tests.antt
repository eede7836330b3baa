-- ===== src/Web/Crypto/Tests.antt =====
-- Runs of the base32 and TOTP code, and the theorems about them at concrete inputs.
use get_exception.Base.{◌+◌, ◌≤◌, ◌≡◌, ◌≢◌, refl, true, none, some, [], ◌∷◌, arith, inl, inr, codes}
use get_exception.Base.Table.Keys.{In}
use get_exception.Web.Crypto.Base32.{base32, decode32}
use get_exception.Web.Crypto.Base32.RoundTrip.{decode32-base32}
use get_exception.Web.Crypto.Totp.{
  Hmac, code_of, totp, is_code, is_after, window, accepts, verify_totp,
}
use get_exception.Web.Crypto.Totp.Laws.{
  counter, verify_totp_sound, verify_totp_once, verify_totp_complete,
}

-- "foobar" is MZXW6YTBOI in RFC 4648.
foobar : base32 (codes "foobar") ≡ codes "MZXW6YTBOI"
unfolding base32
foobar = refl

foreign : decode32 (codes "MZ1") ≡ none
unfolding decode32
foreign = refl

decode32-base32_example : decode32 (base32 (codes "foobar")) ≡ some (codes "foobar")
decode32-base32_example = decode32-base32 (codes "foobar") (omega arith)

-- In place of HMAC-SHA1: nineteen zeros behind the lowest byte of the counter.
abbrev toy_hmac : Hmac
toy_hmac key [] = []
toy_hmac key (a ∷ []) =
    0 ∷ 0 ∷ 0 ∷ a ∷ 0 ∷ 0 ∷ 0 ∷ 0 ∷ 0 ∷ 0 ∷ 0 ∷ 0 ∷ 0 ∷ 0 ∷ 0 ∷ 0 ∷ 0 ∷ 0 ∷ 0 ∷ 0 ∷ []
toy_hmac key (b ∷ rest) = toy_hmac key rest

present : verify_totp toy_hmac [] (codes "000007") none 215000 ≡ some (some 7)
unfolding verify_totp totp
present = refl

accepted_code_shape :
    (is_code (codes "000007") ≡ true)
    × (totp toy_hmac [] 7 ≡ some (codes "000007"))
    × (is_after 7 none ≡ true)
    × (7 ≤ counter 215000 + 1)
    × (counter 215000 ≤ 7 + 1)
accepted_code_shape = verify_totp_sound toy_hmac [] (codes "000007") none 215000 7 present

verify_totp_once_example : verify_totp toy_hmac [] (codes "000007") (some 7) 239999 ≡ some none
verify_totp_once_example =
    verify_totp_once toy_hmac [] (codes "000007") none 215000 239999 7 refl present

accepted_8 : accepts toy_hmac [] (codes "000008") (some 6) 8 ≡ true
unfolding code_of
accepted_8 = refl

no_secret : decode32 [] ≡ some []
unfolding decode32
no_secret = refl

six_digits : is_code (codes "000008") ≡ true
unfolding is_code
six_digits = refl

eight_allowed : In 8 (window (counter 215000))
unfolding window
eight_allowed = inr (inr (inl refl))

code_not_refused : verify_totp toy_hmac [] (codes "000008") (some 6) 215000 ≢ some none
code_not_refused =
    verify_totp_complete toy_hmac [] (codes "000008") (some 6) 215000 8 [] no_secret six_digits
      eight_allowed accepted_8
