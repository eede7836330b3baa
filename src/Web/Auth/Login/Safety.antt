-- ===== src/Web/Auth/Login/Safety.antt =====
-- What a successful login has checked.
use get_exception.Base.{
  Ident, ℕ, ◌+◌, ◌*◌, ◌/◌, ◌≡◌, true, not, ◌&&◌, ◌||◌, string_eq, some, List, [], ◌∷◌, ◌++◌,
  Bool-cases, Option-cases, inl, inr, arith, codes,
}
use get_exception.Web.AuthError.{ok, succeeds}
use get_exception.Web.AuthError.After.{After, After-ok, Result-cases}
use get_exception.Web.Action.Completes.{Completes, Completes-ok}
use get_exception.Web.Workspace.{RateBucket, AuditEntry, Db, user_of}
use get_exception.Web.Auth.{Primitives}
use get_exception.Web.Auth.RateLimit.{rate_limit, hit_both, address_id, account_id, window_time}
use get_exception.Web.Auth.Factor.{Factor, totp_code, recovery_code, consume_factor, spend}
use get_exception.Web.Auth.Sessions.{is_enrollment}
use get_exception.Web.Auth.Enter.{enter}
use get_exception.Web.Auth.Login.{
  LoginInput, LoggedIn, given_factor, by_email, password_hash, login,
}

module _ (prim : Primitives) where
  -- A session comes of a second factor, or only serves to set one up.
  enter_factor :
      (id user : Ident) (secret : List ℕ) (factor : Factor) (now : ℕ) (db : Db)
      → After
          (λ r.
            (is_enrollment (some r.1.1) || succeeds (consume_factor prim user factor now db))
            ≡ true)
          (enter prim id user secret factor now db)
  unfolding enter
  enter_factor id user secret factor now db = elim (Option-cases (user_of db.users user)) [
    | inl missing ↦ rw missing tt
    | inr (u, at) ↦ rw at (elim (Bool-cases u.two_factor_enabled) [
      | inl two ↦ ground (arith, two)
      | inr one ↦ ground (arith, one)
    ])
  ]

  consume_indep :
      (user : Ident) (factor : Factor) (now : ℕ) (db : Db) (buckets : List RateBucket)
      (entries : List AuditEntry)
      → succeeds (
          consume_factor prim user factor now
            (record db { rate_buckets = buckets; audit_log = entries }))
        ≡ succeeds (consume_factor prim user factor now db)
  unfolding consume_factor spend
  consume_indep user (totp_code code) now db buckets entries = ground arith
  consume_indep user (recovery_code code) now db buckets entries = ground arith

  abbrev pub Checked : Ident → LoginInput → ℕ → Db → LoggedIn → Type 0
  Checked dummy input now db r =
      (prim.verify_password (password_hash dummy (by_email input.email db.users) db.accounts)
          input.password
        ≡ true)
      × (by_email input.email db.users ≡ some r.user)
      × ((not r.user.disabled && r.user.email_verified) ≡ true)
      × ((r.enrollment_required
            || succeeds
                (consume_factor prim r.user.id (given_factor input.code input.recovery) now db))
          ≡ true)

  login-Completes :
      (dummy : Ident) (input : LoginInput) (ip : List ℕ) (id : Ident) (secret : List ℕ) (now : ℕ)
      (db : Db)
      → Completes
          (λ db' r. Checked dummy input now db r)
          (login prim dummy input ip id secret now db)
  unfolding login rate_limit
  login-Completes dummy input ip id secret now db =
      elim (Option-cases (by_email input.email db.users)) [
        | inl unknown ↦ rw unknown (ground arith)
        | inr (u, known) ↦
            let tested =
              hit_both (address_id prim "login" ip now)
                (account_id prim "login" (codes input.email) now)
                ((now / window_time + 2) * window_time) db.rate_buckets in
            let entries =
              db.audit_log
              ++ (record { action = "password"; success = true; actor = some u.id } ∷ []) in
            let factor = given_factor input.code input.recovery in
            let entered = record db { rate_buckets = tested.0; audit_log = entries } in
            let same = consume_indep u.id factor now db tested.0 entries in
            elim (Result-cases (enter prim id u.id secret factor now entered)) [
              | inl (e, failed) ↦ ground (arith, known, failed)
              | inr (r, passed) ↦
                  let checked =
                    After-ok _ _ _ (enter_factor id u.id secret factor now entered) passed in
                  ground (arith, known, passed, checked, same)
            ]
      ]

  -- A login succeeds only for the user with the address, whose password was verified, who is not
  -- disabled and has a verified address, and who passed a second factor, unless the new session only
  -- serves to set one up.
  pub login_safe :
      (dummy : Ident) (input : LoginInput) (ip : List ℕ) (id : Ident) (secret : List ℕ) (now : ℕ)
      (db db' : Db) (r : LoggedIn)
      → login prim dummy input ip id secret now db ≡ (db', ok r)
      → Checked dummy input now db r
  login_safe dummy input ip id secret now db db' r e =
      Completes-ok (λ db'' r'. Checked dummy input now db r') _ _ _
        (login-Completes dummy input ip id secret now db) e
