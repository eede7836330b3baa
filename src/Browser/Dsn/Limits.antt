-- ===== src/Browser/Dsn/Limits.antt =====
-- The limits of a delay.
use get_exception.Base.{ℕ, ◌≤◌, Option, arith}
use get_exception.Ingest.Http.{Text}
use get_exception.Browser.Dsn.{retry_after}

-- A server's answer delays the SDK by one second at least and five minutes at most, whatever it says.
pub retry_after-within :
    (seconds date : Text → Option ℕ) (value : Option Text) (now : ℕ)
    → (1000 ≤ retry_after seconds date value now) × (retry_after seconds date value now ≤ 300000)
unfolding retry_after
retry_after-within seconds date value now = (omega arith, omega arith)
