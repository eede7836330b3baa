-- ===== src/Web/Auth/Setup/Finish.antt =====
-- `finishSetup`, around its transaction.
use get_exception.Base.{ℕ, false, none, List, codes}
use get_exception.Web.Action.{Action, ◌>>◌, transaction, on_error}
use get_exception.Web.Workspace.{log}
use get_exception.Web.Auth.{Primitives}
use get_exception.Web.Auth.RateLimit.{rate_limit}
use get_exception.Web.Auth.Setup.Activate.{FirstIds, activate}

unfoldable pub finish_setup :
    Primitives → FirstIds → List (List ℕ) → List ℕ → List ℕ → List ℕ → ℕ → Action (List (List ℕ))
unfolding rate_limit activate
finish_setup prim ids recovery_codes access code ip now = do
  rate_limit prim ip (codes "setup") "setup_activate" now
  on_error (log "setup_activate" false none)
      (transaction (activate prim ids recovery_codes access code now))
