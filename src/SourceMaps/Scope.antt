-- ===== src/SourceMaps/Scope.antt =====
-- apps/web/src/server/source-maps/authorization.ts: what a principal may upload and register.
use get_exception.Base.{
  ℕ, Bool, true, false, ◌&&◌, ◌==◌, ◌===◌, list_eq, Option, none, some, List, [], ◌∷◌, all,
}
use get_exception.Ingest.Http.{Text}
use get_exception.Web.AuthError.{Result, auth_error, require}

pub data ReleaseEnvironment : Type 0 where
  production staging development : ReleaseEnvironment

abbrev same_environment : ReleaseEnvironment → ReleaseEnvironment → Bool
same_environment production production = true
same_environment staging staging = true
same_environment development development = true
same_environment _ _ = false

pub record Review : Type 0 where
  pub repository_id : ℕ
  pub number : ℕ

pub record Deployment : Type 0 where
  pub environment : ReleaseEnvironment
  pub review : Option Review

-- What a pipeline has proved about itself.
pub record BuildContext : Type 0 where
  pub release : Text
  pub asset_prefix : Text
  pub deployment : Deployment

pub data UploadPrincipal : Type 0 where
  token : UploadPrincipal
  gitlab : BuildContext → UploadPrincipal

pub starts_with : Text → Text → Bool
starts_with [] t = true
starts_with (c ∷ p) [] = false
starts_with (c ∷ p) (d ∷ t) = c == d && starts_with p t

abbrev has_any : List Text → Bool
has_any [] = false
has_any (t ∷ ts) = true

abbrev pub in_scope : UploadPrincipal → Text → List Text → Bool
in_scope token release paths = true
in_scope (gitlab c) release paths =
    release === c.release && has_any paths && all (starts_with c.asset_prefix) paths

abbrev pub assert_upload_scope : UploadPrincipal → Text → List Text → Result (Unit {0})
assert_upload_scope principal release paths =
    require (in_scope principal release paths) (auth_error 403 none)

abbrev same_review : Option Review → Option Review → Bool
same_review none none = true
same_review none (some r) = false
same_review (some r) none = false
same_review (some r) (some s) = r.repository_id == s.repository_id && r.number == s.number

abbrev pub may_register : UploadPrincipal → Text → Deployment → Bool
may_register token release d = true
may_register (gitlab c) release d =
    release === c.release
    && same_environment d.environment c.deployment.environment
    && same_review d.review c.deployment.review

abbrev pub assert_release_scope : UploadPrincipal → Text → Deployment → Result (Unit {0})
assert_release_scope principal release d =
    require (may_register principal release d) (auth_error 403 none)
