-- ===== src/Web/Invitations/Register.antt =====
-- `beginRegistration` and `finishRegistration` around their transactions. `allowed` is
-- `passwordAllowed`; the password and the secret are hashed and sealed in `Registration`.
use get_exception.Base.{
  Ident, ℕ, Bool, not, ◌===◌, string_eq, any, some, List, codes, Option, none, [],
}
use get_exception.Base.Table.{find_first}
use get_exception.Web.Invitations.{with_id}
use get_exception.Web.AuthError.{auth_error, Result, ok, err}
use get_exception.Web.Action.{Action, ◌>>=◌, ◌>>◌, ensure, query, transaction}
use get_exception.Web.Workspace.{Db, Invitation, Session}
use get_exception.Web.Auth.{Primitives}
use get_exception.Web.Auth.RateLimit.{rate_limit}
use get_exception.Web.Invitations.Redeem.{Registration, find, begin_registration, enrollment}
use get_exception.Web.Invitations.Finish.{NewIds, finish_registration}

-- A read that may throw.
abbrev reading : {A : Type 0} → (Db → Result A) → Action A
reading f db = (db, f db)

abbrev done : Result Db → Result (Db × Unit {0})
done (ok db) = ok (db, tt)
done (err e) = err e

abbrev email_of : Option Invitation → List ℕ
email_of none = []
email_of (some i) = codes i.email

-- `text_of` writes an identifier out, for the rate limit.
module _ (prim : Primitives) (text_of : Ident → List ℕ) where
  unfoldable pub begin : List ℕ → Ident → Registration → Bool → List ℕ → ℕ → Action (Unit {0})
  begin value id new allowed ip now = do
    invitation ← reading (find prim.digest value now)
    rate_limit prim ip (text_of invitation.id) "invitation_register" now
    ensure allowed (auth_error 400 none)
    db ← query (λ db. db)
    ensure (not (any (λ u. u.email === invitation.email) db.users))
        (auth_error 409 (some "account_exists"))
    transaction (λ db. done (begin_registration prim.digest invitation.id value id new now now db))

  unfoldable pub finish : NewIds → List (List ℕ) → List ℕ → List ℕ → List ℕ → ℕ → Action Session
  finish ids recovery_codes value code ip now = do
    e ← reading (enrollment prim.digest value now)
    db ← query (λ db. db)
    rate_limit prim ip (email_of (find_first (with_id e.invitation_id) db.invitations))
        "invitation_finish" now
    transaction (finish_registration prim ids recovery_codes e.invitation_id value code now)
