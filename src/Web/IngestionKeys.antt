-- ===== src/Web/IngestionKeys.antt =====
-- apps/web/src/server/ingestion-keys.ts: the keys of a project, at most ten of which are valid.
pub mod Valid
use get_exception.Base.{
  Ident, ℕ, ◌+◌, Bool, true, false, not, ◌&&◌, ◌==◌, leb, ltb, Option, none, some, List, [], ◌∷◌,
  ◌++◌, any, if◌then◌else◌,
}
use get_exception.Base.Table.{find_first, count, update_many}
use get_exception.Web.AuthError.{auth_error, Result, ok, err, ◌>>=◌, ◌>>◌, require, found}
use get_exception.Web.Workspace.{Db, Current, IngestionKey, is_set, audit}
use get_exception.Web.Projects.{is_live_project, missing}

abbrev pub max_keys : ℕ
max_keys = 10

abbrev pub grace_time : ℕ
grace_time = 86400000

-- `OR: [{ expiresAt: null }, { expiresAt: { gt } }]`
abbrev pub expires_after : ℕ → Option ℕ → Bool
expires_after t none = true
expires_after t (some e) = ltb t e

abbrev pub is_unrevoked : Ident → IngestionKey → Bool
is_unrevoked project k = k.project_id == project && not (is_set k.revoked_at)

abbrev pub is_valid : Ident → ℕ → IngestionKey → Bool
is_valid project now k = is_unrevoked project k && expires_after now k.expires_at

-- The keys that make way for the new one: at once, or within a day.
unfoldable pub retire : Bool → Ident → ℕ → List IngestionKey → Result (List IngestionKey)
retire true project now keys =
    ok (update_many (is_unrevoked project) (λ k. record k { revoked_at = some now }) keys)
retire false project now keys = do
  require (ltb (count (is_valid project now) keys) max_keys)
      (auth_error 409 (some "ingestion_key_limit"))
  ok (
      update_many (is_valid project (now + grace_time))
        (λ k. record k { expires_at = some (now + grace_time) }) keys)

-- `id` and the hash of the key are random. The address that the key is put into is left out.
unfoldable pub rotate_key : Bool → Ident → Ident → Ident → ℕ → Db → Current → Result (Db × Ident)
unfolding retire
rotate_key revoke_immediately project id hash now db current = do
  live ←
      found (find_first (is_live_project project current.member.organization_id) db.projects)
        missing
  kept ← retire revoke_immediately project now db.ingestion_keys
  ok (
    audit "ingestion_key_rotate" current.user_id (record db {
      ingestion_keys =
          kept
          ++ (record {
            id = id;
            project_id = project;
            key_hash = hash;
            expires_at = none;
            revoked_at = none;
          }
              ∷ []);
    }),
    id,
  )

unfoldable pub revoke_key : Ident → Ident → ℕ → Db → Current → Result (Db × Unit {0})
revoke_key project id now db current = do
  let named = λ (k : IngestionKey).
      k.id == id
      && k.project_id == project
      && any (is_live_project project current.member.organization_id) db.projects
  require (not (count named db.ingestion_keys == 0)) (auth_error 404 none)
  ok (
    audit "ingestion_key_revoke" current.user_id (record db {
      ingestion_keys =
          update_many named (λ k. record k { revoked_at = some now }) db.ingestion_keys;
    }),
    tt,
  )
