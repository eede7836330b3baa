-- ===== src/Web/Auth/Factor/Once.antt =====
-- A code of a second factor is good once.
use get_exception.Base.{
  Ident, ℕ, ◌/◌, ◌≡◌, refl, false, none, some, List, [], ◌∷◌, Bool-cases, Option-cases, inl, inr,
  arith,
}
use get_exception.Base.Table.{find_first, count, update, update_many}
use get_exception.Web.AuthError.{ok, succeeds}
use get_exception.Web.AuthError.After.{After, After-ok}
use get_exception.Web.Workspace.{Db, Credential, active, RecoveryCode, is_active_credential}
use get_exception.Web.Crypto.Totp.{verify_totp}
use get_exception.Web.Crypto.Totp.Laws.{verify_totp_once}
use get_exception.Web.Auth.{Primitives}
use get_exception.Web.Auth.Factor.{
  Factor, totp_code, recovery_code, is_unused, use_at, spend, consume_factor,
}

none_unused :
    (user hash : Ident) (now : ℕ) (codes : List RecoveryCode)
    → count (is_unused user hash) (update_many (is_unused user hash) (use_at now) codes) ≡ 0
none_unused user hash now [] = refl
none_unused user hash now (c ∷ codes) = ground (arith, none_unused user hash now codes)

-- The active credential after its update.
find-update_active :
    (user counter : ℕ) (cs : List Credential) (c : Credential)
    → find_first (is_active_credential user) cs ≡ some c
    → find_first
        (is_active_credential user)
        (update (is_active_credential user) (λ d. record d { last_counter = some counter }) cs)
      ≡ some (record c { last_counter = some counter })
find-update_active user counter [] c h = ground arith
find-update_active user counter (d ∷ cs) c h = elim (Bool-cases (is_active_credential user d)) [
  | inl e ↦ ground (arith, e, h)
  | inr e ↦ ground (arith, e, h, find-update_active user counter cs c)
]

-- The same time step of thirty seconds.
abbrev pub Again : Factor → ℕ → ℕ → Type 0
Again (totp_code code) now later = now / 30000 ≡ later / 30000
Again (recovery_code code) now later = Unit {0}

module _ (prim : Primitives) where
  spent_totp :
      (credential : Credential) (user : Ident) (code : List ℕ) (now later : ℕ) (db : Db)
      → now / 30000 ≡ later / 30000
      → find_first (is_active_credential user) db.credentials ≡ some credential
      → After
          (λ db'. succeeds (consume_factor prim user (totp_code code) later db') ≡ false)
          (spend prim credential user (totp_code code) now db)
  unfolding consume_factor
  spent_totp credential user code now later db e at =
      elim (Option-cases (prim.decrypt credential.ciphertext user active)) [
        | inl broken ↦ rw broken tt
        | inr (secret, opened) ↦
            rw opened
              (elim (Option-cases (verify_totp prim.hmac secret code credential.last_counter now)) [
                | inl thrown ↦ rw thrown tt
                | inr (none, refused) ↦ rw refused tt
                | inr (some counter, passed) ↦
                    let again =
                      verify_totp_once prim.hmac secret code credential.last_counter now later
                        counter e passed in
                    rw passed (
                      ground (
                        arith,
                        again,
                        opened,
                        find-update_active user counter db.credentials credential at,
                      ))
              ])
      ]

  spent_recovery :
      (credential : Credential) (user : Ident) (code : List ℕ) (now later : ℕ) (db : Db)
      → After
          (λ db'. succeeds (consume_factor prim user (recovery_code code) later db') ≡ false)
          (spend prim credential user (recovery_code code) now db)
  unfolding consume_factor
  spent_recovery credential user code now later db =
      ground (arith, none_unused user (prim.digest code) now db.recovery_codes)

  consume_factor-After :
      (user : Ident) (factor : Factor) (now later : ℕ) (db : Db)
      → Again factor now later
      → After
          (λ db'. succeeds (consume_factor prim user factor later db') ≡ false)
          (consume_factor prim user factor now db)
  unfolding consume_factor
  consume_factor-After user (totp_code code) now later db e =
      elim (Option-cases (find_first (is_active_credential user) db.credentials)) [
        | inl missing ↦ rw missing tt
        | inr (credential, at) ↦
            let h = spent_totp credential user code now later db e at in rw at h
      ]
  consume_factor-After user (recovery_code code) now later db e =
      elim (Option-cases (find_first (is_active_credential user) db.credentials)) [
        | inl missing ↦ rw missing tt
        | inr (credential, at) ↦ let h = spent_recovery credential user code now later db in rw at h
      ]

  -- A recovery code that was accepted is refused ever after, and a TOTP code for the rest of its time
  -- step, if nothing else has changed the user's factors.
  pub consume_factor_once :
      (user : Ident) (factor : Factor) (now later : ℕ) (db db' : Db)
      → Again factor now later
      → consume_factor prim user factor now db ≡ ok db'
      → succeeds (consume_factor prim user factor later db') ≡ false
  consume_factor_once user factor now later db db' e h =
      After-ok _ _ _ (consume_factor-After user factor now later db e) h
