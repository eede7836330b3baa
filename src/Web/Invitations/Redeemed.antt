-- ===== src/Web/Invitations/Redeemed.antt =====
-- An invitation is good for one acceptance or one registration.
use get_exception.Base.{
  Ident, ℕ, ◌≡◌, refl, ==_iff, subst, Bool, false, not, ◌==◌, none, some, List, ◌⊎◌, [], ◌∷◌,
  Bool-cases, Option-cases, inl, inr, arith, String, string_eq, ◌===◌, any,
}
use get_exception.Base.Table.{find_first, update}
use get_exception.Web.AuthError.{Result, ok, err, succeeds, failure, auth_error, ◌>>=◌}
use get_exception.Web.AuthError.After.{After, After-ok, After-bind, After-found, After-require}
use get_exception.Web.Workspace.{Db, Invitation, Session, accepted, holds_of, inactive, totp}
use get_exception.Web.Auth.{Primitives}
use get_exception.Web.Auth.Factor.{denied}
use get_exception.Web.Crypto.Totp.{verify_totp}
use get_exception.Web.Auth.Enter.{create_session}
use get_exception.Web.Invitations.{with_id, is_pending, has_hash, lock}
use get_exception.Web.Invitations.Redeem.{
  Registration, join, accept, begin_registration, enrollment,
}
use get_exception.Web.Invitations.Finish.{NewIds, finish_registration, add_user}

-- The invitation is pending.
abbrev is_waiting : Ident → List Invitation → Bool
is_waiting id is = holds_of (λ i. is_pending i.status) (find_first (with_id id) is)

bind-fails :
    {A B : Type 0} (m : Result A) (f : A → Result B)
    → succeeds m ≡ false
    → succeeds (m >>= f) ≡ false
bind-fails (ok a) f h = ground (arith, h)
bind-fails (err e) f h = refl

lock-fails :
    (id : Ident) (now : ℕ) (db : Db)
    → is_waiting id db.invitations ≡ false
    → succeeds (lock id now db) ≡ false
unfolding lock
lock-fails id now db h = ground (arith, h)

found_by_id :
    (id : Ident) (is : List Invitation)
    → holds_of (λ i. not (i.id == id)) (find_first (with_id id) is) ≡ false
found_by_id id [] = refl
found_by_id id (i ∷ is) = ground (arith, found_by_id id is)

find-with_id :
    (id : Ident) (is : List Invitation) (i : Invitation)
    → find_first (with_id id) is ≡ some i
    → i.id ≡ id
find-with_id id is i e = (==_iff i.id id).0 (ground (arith, found_by_id id is, e))

-- After the one that was found is accepted, none with its identifier is pending.
accepted_ends :
    (id now : Ident) (is : List Invitation)
    → is_waiting id (
        update
          (with_id id)
          (λ i. record i { status = accepted; token_hash = none; accepted_at = some now })
          is)
      ≡ false
accepted_ends id now [] = refl
accepted_ends id now (i ∷ is) = elim (Bool-cases (i.id == id)) [
  | inl e ↦ ground (arith, e)
  | inr e ↦ ground (arith, e, accepted_ends id now is)
]

abbrev Ended : Ident → Db → Type 0
Ended id db = is_waiting id db.invitations ≡ false

join-Ended :
    (member now : Ident) (i : Invitation) (user : Ident) (db : Db)
    → After (Ended i.id) (join member now i user db)
unfolding join
join-Ended member now i user db = ground (arith, accepted_ends i.id now db.invitations)

lock-with_id : (id : Ident) (now : ℕ) (db : Db) → After (λ i. i.id ≡ id) (lock id now db)
unfolding lock
lock-with_id id now db = elim (Option-cases (find_first (with_id id) db.invitations)) [
  | inl missing ↦ rw missing tt
  | inr (i, at) ↦ let same = find-with_id id db.invitations i at in rw at (ground (arith, same))
]

module _ (prim : Primitives) where
  accept-Ended :
      (id : Ident) (value : List ℕ) (user : Ident) (email : String) (session member now : Ident)
      (db : Db)
      → After (Ended id) (accept prim.digest id value user email session member now db)
  unfolding accept
  accept-Ended id value user email session member now db =
      After-bind (Ended id) (lock id now db) _ λ i at.
        After-require (Ended id) (has_hash (prim.digest value) i.token_hash) (auth_error 410 none) _
          λ _.
            After-require (Ended id) (i.email === email) (auth_error 403 (some "invitation_email"))
              _
              λ _.
                After-require (Ended id) (any (λ s. s.id == session) db.sessions)
                  (auth_error 401 none) _
                  λ _.
                    subst (λ n. After (Ended n) (join member now i user db))
                      (After-ok _ _ i (lock-with_id id now db) at) (join-Ended member now i user db)

  create_session-Ended :
      (id session user : Ident) (now : ℕ) (db : Db)
      → Ended id db
      → After (λ (r : Db × Session). Ended id r.0) (create_session prim session user totp now db)
  unfolding create_session
  create_session-Ended id session user now db h = ground (arith, h)

  finish_registration-Ended :
      (ids : NewIds) (recovery_codes : List (List ℕ)) (id : Ident) (value code : List ℕ) (now : ℕ)
      (db : Db)
      → After
          (λ (r : Db × Session). Ended id r.0)
          (finish_registration prim ids recovery_codes id value code now db)
  unfolding finish_registration
  finish_registration-Ended ids recovery_codes id value code now db =
      let P = λ (r : Db × Session). Ended id r.0 in
      After-bind P (lock id now db) _ λ i at.
        After-bind P (enrollment prim.digest value now db) _ λ e _.
          After-require P (not (any (λ u. u.email === i.email) db.users))
            (auth_error 409 (some "account_exists")) _
            λ _.
              After-found P (prim.decrypt e.pending_ciphertext e.id inactive) failure _ λ secret _.
                After-found P (verify_totp prim.hmac secret code none now) failure _ λ match _.
                  After-found P match denied _ λ counter _.
                    After-bind P
                      (join ids.member now i ids.user
                        (add_user prim ids i e.password_hash secret counter recovery_codes db))
                      _
                      λ joined made. create_session-Ended id ids.session ids.user now joined (
                        After-ok (Ended id) _ joined
                          (subst
                            (λ n. After (Ended n) (
                              join ids.member now i ids.user (
                                add_user prim ids i e.password_hash secret counter recovery_codes
                                  db)))
                            (After-ok _ _ i (lock-with_id id now db) at)
                            (join-Ended ids.member now i ids.user (
                              add_user prim ids i e.password_hash secret counter recovery_codes
                                db)))
                          made)

  nothing_succeeds :
      (id : Ident) (db : Db) (value : List ℕ) (user : Ident) (email : String)
      (session member new started now : Ident) (token : Registration) (ids : NewIds)
      (recovery_codes : List (List ℕ)) (code : List ℕ)
      → Ended id db
      → (succeeds (accept prim.digest id value user email session member now db) ≡ false)
        × (succeeds (begin_registration prim.digest id value new token now started db) ≡ false)
        × (succeeds (finish_registration prim ids recovery_codes id value code now db) ≡ false)
  unfolding accept begin_registration finish_registration
  nothing_succeeds id db value user email session member new started now token ids recovery_codes
        code h =
      let f = lock-fails id now db h in
      (
        bind-fails (lock id now db) _ f,
        bind-fails (lock id now db) _ f,
        bind-fails (lock id now db) _ f,
      )

  -- Once an invitation has been accepted, or a registration with it has been finished, no later
  -- attempt to accept it, to begin a registration with it or to finish one succeeds, by whatever user
  -- and with whatever token or code, even if the attempt found the invitation before.
  pub redeemed_once :
      (id : Ident) (value : List ℕ) (user : Ident) (email : String) (session member now : Ident)
      (ids : NewIds) (recovery_codes : List (List ℕ)) (code : List ℕ) (db db' : Db)
      (value' : List ℕ) (user' : Ident) (email' : String)
      (session' member' new started now' : Ident) (token : Registration) (ids' : NewIds)
      (recovery_codes' : List (List ℕ)) (code' : List ℕ)
      → (accept prim.digest id value user email session member now db ≡ ok db')
        ⊎ ((made : Session) × (finish_registration prim ids recovery_codes id value code now db
              ≡ ok (db', made)))
      → (succeeds (accept prim.digest id value' user' email' session' member' now' db') ≡ false)
        × (succeeds (begin_registration prim.digest id value' new token now' started db') ≡ false)
        × (succeeds (finish_registration prim ids' recovery_codes' id value' code' now' db')
            ≡ false)
  redeemed_once id value user email session member now ids recovery_codes code db db' value' user'
        email' session' member' new started now' token ids' recovery_codes' code' e =
      let ended : Ended id db' = elim e [
        | inl a ↦
            After-ok (Ended id) _ db' (accept-Ended id value user email session member now db) a
        | inr f ↦
            After-ok (λ (r : Db × Session). Ended id r.0) _ (db', f.0)
              (finish_registration-Ended ids recovery_codes id value code now db) f.1
      ] in
      nothing_succeeds id db' value' user' email' session' member' new started now' token ids'
        recovery_codes' code' ended
