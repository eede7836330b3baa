-- ===== src/Web/Auth/RateLimit.antt =====
-- `rateLimit`: two buckets for each attempt, one for the address and one for the account, in windows
-- of five minutes.
pub mod Attempts
use get_exception.Base.{
  Ident, ℕ, ◌+◌, ◌*◌, ◌/◌, String, Bool, true, false, ◌||◌, ◌==◌, ltb, not, Option, none, some,
  List, [], ◌∷◌, ◌++◌, codes, if◌then◌else◌,
}
use get_exception.Base.Table.{find_first}
use get_exception.Web.AuthError.{auth_error}
use get_exception.Web.Action.{Action, ◌>>=◌, ◌>>◌, ensure, query, write}
use get_exception.Web.Workspace.{RateBucket, Db}
use get_exception.Web.Auth.{Primitives}

abbrev pub window_time : ℕ
window_time = 300000

abbrev pub max_hits : ℕ
max_hits = 10

-- `upsert`
unfoldable pub hit : Ident → ℕ → List RateBucket → List RateBucket
hit id expires [] = record { id = id; hits = 1; expires_at = expires } ∷ []
hit id expires (b ∷ bs) =
    if b.id == id then record b { hits = b.hits + 1 } ∷ bs else b ∷ hit id expires bs

abbrev hits_in : Option RateBucket → ℕ
hits_in none = 0
hits_in (some b) = b.hits

abbrev pub hits_of : Ident → List RateBucket → ℕ
hits_of id bs = hits_in (find_first (λ b. b.id == id) bs)

abbrev pub is_blocked : Ident → List RateBucket → Bool
is_blocked id bs = ltb max_hits (hits_of id bs)

-- Both upserts, each with the row that it gives.
unfoldable pub hit_both : Ident → Ident → ℕ → List RateBucket → List RateBucket × Bool
unfolding hit
hit_both a b expires buckets =
    let first = hit a expires buckets in
    let second = hit b expires first in (second, is_blocked a first || is_blocked b second)

module _ (prim : Primitives) where
  abbrev pub address_id : String → List ℕ → ℕ → Ident
  address_id action ip now =
      prim.bucket_id (now / window_time) (codes action ++ (codes ":ip:" ++ ip))

  abbrev pub account_id : String → List ℕ → ℕ → Ident
  account_id action principal now =
      prim.bucket_id (now / window_time)
        (codes action ++ (codes ":account:" ++ prim.normalize principal))

  unfoldable pub rate_limit : List ℕ → List ℕ → String → ℕ → Action (Unit {0})
  unfolding hit_both
  rate_limit ip principal action now = do
    done ← query (λ db.
        hit_both (address_id action ip now) (account_id action principal now)
          ((now / window_time + 2) * window_time) db.rate_buckets)
    write (λ db. record db { rate_buckets = done.0 })
    ensure (not done.1) (auth_error 429 none)
