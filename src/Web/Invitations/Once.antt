-- ===== src/Web/Invitations/Once.antt =====
-- A link of an invitation is not good after it is changed.
use get_exception.Base.{
  Ident, ℕ, ◌≡◌, refl, Bool, false, ◌&&◌, ◌==◌, leb, Option, List, [], ◌∷◌, Bool-cases,
  Option-cases, inl, inr, arith, String, string_eq,
}
use get_exception.Base.Table.{find_first, update, update_many}
use get_exception.Web.AuthError.{ok, succeeds}
use get_exception.Web.AuthError.After.{After, After-ok}
use get_exception.Web.Workspace.{Db, Current, Invitation, holds_of}
use get_exception.Web.Invitations.{expire, with_id, is_pending, has_hash, lock}
use get_exception.Web.Invitations.Issue.{Change, reissue, revoke, Issued, changed, change, is_rival}
use get_exception.Web.Invitations.Redeem.{Registration, accept, begin_registration}

-- The invitation is pending and has the hash.
abbrev pub is_redeemable : Ident → Ident → List Invitation → Bool
is_redeemable id hash is =
    holds_of (λ i. is_pending i.status && has_hash hash i.token_hash) (find_first (with_id id) is)

module _ (digest : List ℕ → Ident) where
  not_accepted :
      (id : Ident) (value : List ℕ) (user : Ident) (email : String) (session member : Ident)
      (now : ℕ) (db : Db)
      → is_redeemable id (digest value) db.invitations ≡ false
      → succeeds (accept digest id value user email session member now db) ≡ false
  unfolding accept lock
  not_accepted id value user email session member now db h = ground (arith, h)

  not_registered :
      (id : Ident) (value : List ℕ) (new : Ident) (token : Registration) (started now : ℕ) (db : Db)
      → is_redeemable id (digest value) db.invitations ≡ false
      → succeeds (begin_registration digest id value new token now started db) ≡ false
  unfolding begin_registration lock
  not_registered id value new token started now db h = ground (arith, h)

closed :
    (id hash : Ident) (f : Invitation → Invitation) (is : List Invitation)
    → ((i : Invitation) → (f i).id ≡ i.id)
    → ((i : Invitation) → (is_pending (f i).status && has_hash hash (f i).token_hash) ≡ false)
    → is_redeemable id hash (update (with_id id) f is) ≡ false
closed id hash f [] same h = refl
closed id hash f (i ∷ is) same h = elim (Bool-cases (i.id == id)) [
  | inl e ↦ ground (arith, e, same i, h i)
  | inr e ↦ ground (arith, e, closed id hash f is same h)
]

changed_closed :
    (id hash new now : Ident) (action : Change) (is : List Invitation)
    → (new == hash) ≡ false
    → is_redeemable id hash (update (with_id id) (changed action new now) is) ≡ false
changed_closed id hash new now reissue is ne =
    closed id hash (changed reissue new now) is (λ i. refl) (λ i. ne)
changed_closed id hash new now revoke is ne =
    closed id hash (changed revoke new now) is (λ i. refl) (λ i. refl)

change-After :
    (digest : List ℕ → Ident) (id : Ident) (action : Change) (value : List ℕ) (now hash : Ident)
    (db : Db) (current : Current)
    → (digest value == hash) ≡ false
    → After
        (λ r. is_redeemable id hash r.0.invitations ≡ false)
        (change digest id action value now db current)
unfolding change
change-After digest id revoke value now hash db current ne =
    ground (arith, changed_closed id hash (digest value) now revoke db.invitations ne)
change-After digest id reissue value now hash db current ne =
    elim (Option-cases (find_first (with_id id) db.invitations)) [
      | inl missing ↦ rw missing (ground arith)
      | inr (fresh, is) ↦ rw is (
          ground (
            arith,
            changed_closed id hash (digest value) now reissue
                (update_many (λ i. is_rival fresh i && leb i.expires_at now) expire db.invitations)
                ne,
          ))
    ]

-- Once an owner has reissued or revoked an invitation, an older link of it is refused, unless its hash
-- is that of the new token.
pub change_closes :
    (digest : List ℕ → Ident) (id : Ident) (action : Change) (value : List ℕ) (now : ℕ)
    (db db' : Db) (current : Current) (issued : Option Issued) (old : List ℕ) (user : Ident)
    (email : String) (session member new started now' : Ident) (token : Registration)
    → (digest value == digest old) ≡ false
    → change digest id action value now db current ≡ ok (db', issued)
    → succeeds (accept digest id old user email session member now' db') ≡ false
      × succeeds (begin_registration digest id old new token now' started db') ≡ false
change_closes digest id action value now db db' current issued old user email session member new
      started now' token ne e =
    let gone =
      After-ok _ _ _ (change-After digest id action value now (digest old) db current ne) e in
    (
      not_accepted digest id old user email session member now' db' gone,
      not_registered digest id old new token started now' db' gone,
    )
