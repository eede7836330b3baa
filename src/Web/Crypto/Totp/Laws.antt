-- ===== src/Web/Crypto/Totp/Laws.antt =====
-- What `verifyTotp` accepts, and that it accepts no code twice.
use get_exception.Base.{
  ℕ, zero, suc, ◌+◌, ◌/◌, ◌≤◌, ◌<◌, ◌≡◌, ◌≢◌, refl, sym, subst, Bool, true, false, Option, none,
  some, List, [], ◌∷◌, arith, list_eq, same_codes_iff, some-injective, if◌then◌else◌, Bool-cases,
  Option-cases, inl, inr, All, ◌⊎◌,
}
use get_exception.Base.Table.Keys.{In, All-In}
use get_exception.Web.Crypto.Base32.{decode32}
use get_exception.Web.Crypto.Totp.{
  Hmac, code_of, totp, is_code, is_after, window, accepts, scan, verify_totp,
}

-- A list that rises from above `low`.
abbrev Rises : ℕ → List ℕ → Type 0
Rises low [] = Unit {0}
Rises low (x ∷ xs) = (low < x) × Rises x xs

abbrev Rising : List ℕ → Type 0
Rising [] = Unit {0}
Rising (x ∷ xs) = Rises x xs

Rises-Rising : (low : ℕ) (xs : List ℕ) → Rises low xs → Rising xs
Rises-Rising low [] h = tt
Rises-Rising low (x ∷ xs) h = h.1

window-Rising : (n : ℕ) → Rising (window n)
unfolding window
window-Rising zero = omega arith
window-Rising (suc n) = omega arith

abbrev pub counter : ℕ → ℕ
counter now = now / 30000

-- No period is more than one away from the present one.
window-near : (n : ℕ) → All (λ p. (p ≤ n + 1) × (n ≤ p + 1)) (window n)
unfolding window
window-near zero = omega arith
window-near (suc n) = omega arith

module _ (hmac : Hmac) (key code : List ℕ) (last : Option ℕ) where
  abbrev ok_at : ℕ → Bool
  ok_at p = accepts hmac key code last p

  -- The result is the match before the loop, or a period of the loop that is accepted.
  scan-accepts :
      (match : Option ℕ) (ps : List ℕ) (p : ℕ)
      → scan hmac key code last match ps ≡ some p
      → (match ≡ some p) ⊎ (In p ps × (ok_at p ≡ true))
  unfolding scan
  scan-accepts match [] p e = inl e
  scan-accepts match (q ∷ ps) p e = elim (Bool-cases (ok_at q)) [
    | inl b ↦ elim (scan-accepts (some q) ps p (rw b at e)) [
      | inl s ↦
          let same = some-injective _ _ s in inr (inl same, subst (λ t. ok_at t ≡ true) same b)
      | inr (m, a) ↦ inr (inr m, a)
    ]
    | inr b ↦ elim (scan-accepts match ps p (rw b at e)) [
      | inl s ↦ inl s
      | inr (m, a) ↦ inr (inr m, a)
    ]
  ]

  scan-ge :
      (m : ℕ) (ps : List ℕ) (p : ℕ)
      → Rises m ps
      → scan hmac key code last (some m) ps ≡ some p
      → m ≤ p
  unfolding scan
  scan-ge m [] p r e = omega (arith, some-injective m p e)
  scan-ge m (q ∷ ps) p r e = elim (Bool-cases (ok_at q)) [
    | inl b ↦ omega (arith, scan-ge q ps p r.1 (rw b at e))
    | inr b ↦ scan-ge m ps p (Rises-down ps r.0 r.1) (rw b at e)
  ]
    where
      Rises-down : (xs : List ℕ) → m < q → Rises q xs → Rises m xs
      Rises-down [] lt g = tt
      Rises-down (x ∷ xs) lt g = (omega arith, g.1)

  -- Of several accepted periods the loop keeps the last.
  scan-latest :
      (match : Option ℕ) (ps : List ℕ) (p : ℕ)
      → Rising ps
      → scan hmac key code last match ps ≡ some p
      → All (λ q. ok_at q ≡ true → q ≤ p) ps
  unfolding scan
  scan-latest match [] p r e = tt
  scan-latest match (q ∷ ps) p r e =
      let down = Rises-Rising q ps r in
      elim (Bool-cases (ok_at q)) [
        | inl b ↦ ((λ _. scan-ge q ps p r (rw b at e)), scan-latest (some q) ps p down (rw b at e))
        | inr b ↦ ((λ a. absurd (ground (arith, a, b))), scan-latest match ps p down (rw b at e))
      ]

  scan-none : (ps : List ℕ) → All (λ q. ok_at q ≡ false) ps → scan hmac key code last none ps ≡ none
  unfolding scan
  scan-none [] h = refl
  scan-none (q ∷ ps) h = rw h.0 (scan-none ps h.1)

  scan-keeps : (m : ℕ) (ps : List ℕ) → scan hmac key code last (some m) ps ≢ none
  unfolding scan
  scan-keeps m [] e = cc
  scan-keeps m (q ∷ ps) e = elim (Bool-cases (ok_at q)) [
    | inl b ↦ scan-keeps q ps (rw b at e)
    | inr b ↦ scan-keeps m ps (rw b at e)
  ]

  scan-some :
      (match : Option ℕ) (ps : List ℕ) (p : ℕ)
      → In p ps
      → ok_at p ≡ true
      → scan hmac key code last match ps ≢ none
  unfolding scan
  scan-some match [] p m a e = elim m [ ]
  scan-some match (q ∷ ps) p (inl s) a e =
      let b : ok_at q ≡ true = subst (λ t. ok_at t ≡ true) (sym s) a in scan-keeps q ps (rw b at e)
  scan-some match (q ∷ ps) p (inr m) a e = scan-some (if ok_at q then some q else match) ps p m a e

-- What `verifyTotp` returns is what the loop gives under the key of the secret.
opened :
    (hmac : Hmac) (secret code : List ℕ) (last : Option ℕ) (now : ℕ) (p : ℕ)
    → verify_totp hmac secret code last now ≡ some (some p)
    → (is_code code ≡ true)
      × ((key : List ℕ) × (decode32 secret ≡ some key)
          × (scan hmac key code last none (window (counter now)) ≡ some p))
unfolding verify_totp
opened hmac secret code last now p e = elim (Bool-cases (is_code code)) [
  | inr b ↦ absurd (ground (arith, rw b at e))
  | inl b ↦ elim (Option-cases (decode32 secret)) [
    | inl n ↦ absurd (ground (arith, rw (b, n) at e))
    | inr (key, k) ↦ (b, (key, k, some-injective _ _ (rw (b, k) at e)))
  ]
]

module _ (hmac : Hmac) (key code : List ℕ) where
  blocked :
      (last : Option ℕ) (p : ℕ) (ps : List ℕ)
      → is_after p last ≡ true
      → All (λ q. accepts hmac key code last q ≡ true → q ≤ p) ps
      → All (λ q. accepts hmac key code (some p) q ≡ false) ps
  blocked last p [] a h = tt
  blocked none p (q ∷ ps) a h = (ground (arith, h.0), blocked none p ps a h.1)
  blocked (some l) p (q ∷ ps) a h = (ground (arith, h.0), blocked (some l) p ps a h.1)

  scan_sound :
      (last : Option ℕ) (n p : ℕ)
      → scan hmac key code last none (window n) ≡ some p
      → (code_of hmac key p ≡ code) × (is_after p last ≡ true) × (p ≤ n + 1) × (n ≤ p + 1)
  scan_sound last n p e = elim (scan-accepts hmac key code last none (window n) p e) [
    | inl n ↦ absurd (cc)
    | inr (m, a) ↦
        let near = All-In _ p (window n) (window-near n) m in
        (
          (same_codes_iff (code_of hmac key p) code).0 (ground (arith, a)),
          ground (arith, a),
          near.0,
          near.1,
        )
  ]

  scan_once :
      (last : Option ℕ) (n p : ℕ)
      → scan hmac key code last none (window n) ≡ some p
      → scan hmac key code (some p) none (window n) ≡ none
  scan_once last n p e = scan-none hmac key code (some p) (window n) (
      blocked last p (window n) (scan_sound last n p e).1
        (scan-latest hmac key code last none (window n) p (window-Rising n) e))

module _ (hmac : Hmac) (secret code : List ℕ) where
  -- A code that is accepted has six digits and is that of a period at most one away from the present
  -- one, later than the last that was used.
  pub verify_totp_sound :
      (last : Option ℕ) (now p : ℕ)
      → verify_totp hmac secret code last now ≡ some (some p)
      → (is_code code ≡ true)
        × (totp hmac secret p ≡ some code)
        × (is_after p last ≡ true)
        × (p ≤ counter now + 1)
        × (counter now ≤ p + 1)
  unfolding totp
  verify_totp_sound last now p e =
      let (b, (key, k, s)) = opened hmac secret code last now p e in
      let (same, after, up, down) = scan_sound hmac key code last (counter now) p s in
      (b, rw (k, same), after, up, down)

  -- Once its period is recorded as the last one used, a code is refused at every time of the same
  -- time step of thirty seconds.
  pub verify_totp_once :
      (last : Option ℕ) (now later p : ℕ)
      → now / 30000 ≡ later / 30000
      → verify_totp hmac secret code last now ≡ some (some p)
      → verify_totp hmac secret code (some p) later ≡ some none
  unfolding verify_totp
  verify_totp_once last now later p same e =
      let (b, (key, k, s)) = opened hmac secret code last now p e in
      rw (b, k, sym same, scan_once hmac key code last (counter now) p s)

  -- A code of a period in the window that is later than the last one used is not refused.
  pub verify_totp_complete :
      (last : Option ℕ) (now p : ℕ) (key : List ℕ)
      → decode32 secret ≡ some key
      → is_code code ≡ true
      → In p (window (counter now))
      → accepts hmac key code last p ≡ true
      → verify_totp hmac secret code last now ≢ some none
  unfolding verify_totp
  verify_totp_complete last now p key k b m a e =
      scan-some hmac key code last none (window (counter now)) p m a
        (some-injective _ _ (rw (b, k) at e))
