-- ===== src/Web/WorkBudget.antt =====
-- apps/web/src/server/work-budget.ts: the number of expensive operations at a time. `run` is `begin`,
-- its operation, and `finish` however the operation ends; other calls run between them.
pub mod Running
pub mod Tests
use get_exception.Base.{ℕ, ◌+◌, ◌-◌, Option, none, leb, if◌then◌else◌}
use get_exception.Web.AuthError.{AuthError, auth_error, Result, ok, err}

-- `run` up to its operation, on `active`.
unfoldable pub begin : ℕ → ℕ → Result ℕ
begin limit active = if leb limit active then err (auth_error 429 none) else ok (active + 1)

-- `finally { this.active--; }`
unfoldable pub finish : ℕ → ℕ
finish active = active - 1
