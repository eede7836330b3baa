-- ===== src/Web/Auth/Tests.antt =====
-- Runs of the authentication, and the theorems about it at concrete inputs.
use get_exception.Base.{
  ℕ, ◌+◌, ◌-◌, ◌≤◌, ◌≡◌, refl, true, false, ◌==◌, none, some, List, [], ◌∷◌, codes,
}
use get_exception.Web.AuthError.{Result, ok, err, succeeds}
use get_exception.Web.Workspace.{Db, totp}
use get_exception.Web.Fixtures.{account, before, sum}
use get_exception.Web.Crypto.Totp.{Hmac, totp as totp_of, verify_totp}
use get_exception.Web.Auth.{Primitives}
use get_exception.Web.Auth.RateLimit.{rate_limit, hits_of, max_hits}
use get_exception.Web.Auth.RateLimit.Attempts.{Attempt, let_through, let_through-le}
use get_exception.Web.Auth.Factor.{totp_code, consume_factor}
use get_exception.Web.Auth.Factor.Once.{consume_factor_once}
use get_exception.Web.Auth.Enter.{enter}
use get_exception.Web.Auth.Login.{LoginInput, LoggedIn, login}
use get_exception.Web.Auth.Login.Safety.{Checked, login_safe}
use get_exception.Web.Auth.Setup.{setup_access, prepare_setup}
use get_exception.Web.Auth.Setup.Activate.{FirstIds}
use get_exception.Web.Auth.Setup.Finish.{finish_setup}
use get_exception.Web.Auth.Setup.Closed.{finish_setup_closes}

-- In place of HMAC-SHA1: nineteen zeros behind the lowest byte of the counter.
abbrev counter_mac : Hmac
counter_mac key [] = []
counter_mac key (a ∷ []) =
    0 ∷ 0 ∷ 0 ∷ a ∷ 0 ∷ 0 ∷ 0 ∷ 0 ∷ 0 ∷ 0 ∷ 0 ∷ 0 ∷ 0 ∷ 0 ∷ 0 ∷ 0 ∷ 0 ∷ 0 ∷ 0 ∷ 0 ∷ []
counter_mac key (b ∷ rest) = counter_mac key rest

abbrev pub toy : Primitives
toy = record {
  hmac = counter_mac;
  digest = sum;
  verify_password = λ h given. sum given == h;
  encrypt = λ secret user state. 0;
  decrypt = λ c user state. some [];
  bucket_id = λ w text. w + sum text;
  normalize = λ text. text;
  new_session = λ id user method verified now. record {
    id = id;
    user_id = user;
    expires_at = now + 28800000;
    created_at = now;
    last_seen_at = now;
    mfa_verified_at = verified;
    mfa_method = some method;
  };
}

abbrev attempt_ann : Attempt
attempt_ann = record { ip = codes "::1"; principal = codes "ann@x.org"; action = "login"; now = 7 }

let_through-le_example :
    let_through toy 1035 (attempt_ann ∷ attempt_ann ∷ []) before
    ≤ max_hits - hits_of 1035 before.rate_buckets
let_through-le_example = let_through-le toy 1035 (attempt_ann ∷ attempt_ann ∷ []) before

abbrev code : List ℕ
code = codes "000007"

abbrev consumed : Db
unfolding consume_factor verify_totp totp_of
consumed = elim (consume_factor toy 101 (totp_code code) 215000 before) [
  | ok db ↦ db
  | err e ↦ before
]

consume_factor_once_example :
    succeeds (consume_factor toy 101 (totp_code code) 216000 consumed) ≡ false
unfolding consume_factor verify_totp totp_of
consume_factor_once_example =
    consume_factor_once toy 101 (totp_code code) 215000 216000 before consumed refl refl

abbrev ann_login : LoginInput
ann_login = record {
  email = "ann@x.org";
  password = codes "secret";
  code = some code;
  recovery = none;
}

abbrev with_password : Db
with_password = record before {
  accounts = record { user_id = 101; password = sum (codes "secret") } ∷ [];
}

abbrev run_login : Db × Result LoggedIn
unfolding login rate_limit enter consume_factor verify_totp totp_of
run_login = login toy 0 ann_login (codes "::1") 301 [] 215000 with_password

abbrev logged_in : LoggedIn
unfolding login rate_limit enter consume_factor verify_totp totp_of
logged_in = elim run_login.1 [
  | ok r ↦ r
  | err e ↦ record {
    user = account 0 "";
    session = toy.new_session 0 0 totp none 0;
    enrollment_required = false;
  }
]

login_safe_example : Checked toy 0 ann_login 215000 with_password logged_in
unfolding login rate_limit enter consume_factor verify_totp totp_of
login_safe_example =
    login_safe toy 0 ann_login (codes "::1") 301 [] 215000 with_password run_login.0 logged_in refl

abbrev prepared : Db
prepared = record before {
  setting = none;
  bootstrap = some (record { token_hash = 5; expires_at = 900000 });
  setup_sessions =
      record {
        id = 401;
        token_hash = sum (codes "door");
        user_id = 104;
        domain = "x.org";
        email = "dan@x.org";
        password_hash = some 9;
        pending_ciphertext = some 0;
        expires_at = 900000;
      }
      ∷ [];
}

abbrev first_ids : FirstIds
first_ids = record { organization = 2; member = 14; team = 32 }

abbrev established : Db
unfolding finish_setup rate_limit verify_totp totp_of
established = (finish_setup toy first_ids [] (codes "door") code (codes "::1") 215000 prepared).0

finish_setup_closes_example :
    (succeeds
        (setup_access toy (codes "key") (codes "::1") (codes "door") 402 105 216000 established).1
      ≡ false)
    × (succeeds
          (prepare_setup toy "x.org"
            (λ p. true)
            sum
            (codes "door")
            "eve@x.org"
            "x.org"
            (codes "secret")
            []
            (codes "::1")
            216000
            established).1
        ≡ false)
    × (succeeds
          (finish_setup toy first_ids [] (codes "door") code (codes "::1") 216000 established).1
        ≡ false)
unfolding finish_setup rate_limit verify_totp totp_of
finish_setup_closes_example =
    finish_setup_closes toy first_ids [] (codes "door") code (codes "::1") 215000 prepared
      established established [] (codes "key") (codes "door") code (codes "secret") [] (codes "::1")
      402 105 "x.org" "eve@x.org" "x.org" (λ p. true) sum 216000 refl refl
