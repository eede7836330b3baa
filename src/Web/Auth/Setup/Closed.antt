-- ===== src/Web/Auth/Setup/Closed.antt =====
-- A setup is completed once.
use get_exception.Base.{Ident, ℕ, String, ◌≡◌, Bool, true, false, string_eq, List, arith}
use get_exception.Web.AuthError.{ok, succeeds}
use get_exception.Web.AuthError.After.{After}
use get_exception.Web.Action.Completes.{Completes, Completes-ok}
use get_exception.Web.Workspace.{Db, is_set}
use get_exception.Web.Auth.{Primitives}
use get_exception.Web.Auth.RateLimit.{rate_limit}
use get_exception.Web.Auth.Setup.{setup_access, prepare_setup}
use get_exception.Web.Auth.Setup.Activate.{FirstIds, activate}
use get_exception.Web.Auth.Setup.Finish.{finish_setup}

module _ (prim : Primitives) where
  no_access :
      (provided ip access : List ℕ) (id user : Ident) (now : ℕ) (db : Db)
      → is_set db.setting ≡ true
      → succeeds (setup_access prim provided ip access id user now db).1 ≡ false
  unfolding setup_access rate_limit
  no_access provided ip access id user now db h = ground (arith, h)

  no_preparation :
      (hostname : String) (allowed : List ℕ → Bool) (hash : List ℕ → Ident) (access : List ℕ)
      (email domain : String) (password secret ip : List ℕ) (now : ℕ) (db : Db)
      → is_set db.setting ≡ true
      → succeeds
          (prepare_setup prim hostname allowed hash access email domain password secret ip now db).1
        ≡ false
  unfolding prepare_setup rate_limit
  no_preparation hostname allowed hash access email domain password secret ip now db h =
      ground (arith, h)

  no_activation :
      (ids : FirstIds) (recovery_codes : List (List ℕ)) (access code ip : List ℕ) (now : ℕ)
      (db : Db)
      → is_set db.setting ≡ true
      → succeeds (finish_setup prim ids recovery_codes access code ip now db).1 ≡ false
  unfolding finish_setup rate_limit activate
  no_activation ids recovery_codes access code ip now db h = ground (arith, h)

  activate-After :
      (ids : FirstIds) (recovery_codes : List (List ℕ)) (access code : List ℕ) (now : ℕ) (db : Db)
      → After (λ r. is_set r.0.setting ≡ true) (activate prim ids recovery_codes access code now db)
  unfolding activate
  activate-After ids recovery_codes access code now db = ground arith

  finish_setup-Completes :
      (ids : FirstIds) (recovery_codes : List (List ℕ)) (access code ip : List ℕ) (now : ℕ)
      (db : Db)
      → Completes
          (λ db' codes. is_set db'.setting ≡ true)
          (finish_setup prim ids recovery_codes access code ip now db)
  unfolding finish_setup rate_limit
  finish_setup-Completes ids recovery_codes access code ip now db = ground arith

  -- Once a setup has been completed, no further attempt to get access to it, to prepare it or to
  -- complete it succeeds, as long as the setting that it stored is there.
  pub finish_setup_closes :
      (ids : FirstIds) (recovery_codes : List (List ℕ)) (access code ip : List ℕ) (now : ℕ)
      (db db' later : Db) (shown : List (List ℕ))
      (provided access' code' password secret ip' : List ℕ) (id user : Ident)
      (hostname email domain : String) (allowed : List ℕ → Bool) (hash : List ℕ → Ident) (now' : ℕ)
      → finish_setup prim ids recovery_codes access code ip now db ≡ (db', ok shown)
      → later.setting ≡ db'.setting
      → (succeeds (setup_access prim provided ip' access' id user now' later).1 ≡ false)
        × (succeeds
              (prepare_setup prim hostname allowed hash access' email domain password secret ip'
                now' later).1
            ≡ false)
        × (succeeds (finish_setup prim ids recovery_codes access' code' ip' now' later).1 ≡ false)
  finish_setup_closes ids recovery_codes access code ip now db db' later shown provided access'
        code' password secret ip' id user hostname email domain allowed hash now' e kept =
      let done =
        Completes-ok (λ d codes. is_set d.setting ≡ true) _ _ _
          (finish_setup-Completes ids recovery_codes access code ip now db) e in
      let still : is_set later.setting ≡ true = rw kept done in
      (
        no_access provided ip' access' id user now' later still,
        no_preparation hostname allowed hash access' email domain password secret ip' now' later
            still,
        no_activation ids recovery_codes access' code' ip' now' later still,
      )
