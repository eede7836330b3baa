-- ===== src/Web/Invitations/Pending.antt =====
-- One pending invitation for an address.
use get_exception.Base.{
  Ident, ℕ, ◌+◌, ◌≡◌, refl, Bool, true, false, ◌&&◌, leb, none, some, List, [], ◌∷◌, ◌++◌, any,
  if◌then◌else◌, arith, ==_iff, String, string_eq,
}
use get_exception.Base.Table.{count, update_many}
use get_exception.Web.AuthError.{ok}
use get_exception.Web.AuthError.After.{After, After-ok}
use get_exception.Web.Workspace.{Db, Current, Invitation, pending}
use get_exception.Web.Invitations.{is_for, is_pending, invitation_ttl, expire}
use get_exception.Web.Invitations.Issue.{InvitationInput, Issued, create}

abbrev pub is_invited : Ident → String → Invitation → Bool
is_invited org email i = is_for org email i && is_pending i.status

count-none : (p : Invitation → Bool) (is : List Invitation) → any p is ≡ false → count p is ≡ 0
count-none p [] h = refl
count-none p (i ∷ is) h = ground (arith, h, count-none p is)

count-append :
    (p : Invitation → Bool) (is : List Invitation) (i : Invitation)
    → count p (is ++ (i ∷ [])) ≡ count p is + (if p i then 1 else 0)
count-append p [] i = ground arith
count-append p (j ∷ is) i = ground (arith, count-append p is i)

create-After :
    (digest : List ℕ → Ident) (input : InvitationInput) (id : Ident) (value : List ℕ) (now : ℕ)
    (db : Db) (current : Current)
    → After
        (λ r. count (is_invited current.member.organization_id input.email) r.0.invitations ≡ 1)
        (create digest input id value now db current)
unfolding create
create-After digest input id value now db current =
    let org = current.member.organization_id in
    let rest =
      update_many (λ i. is_invited org input.email i && leb i.expires_at now) expire
        db.invitations in
    let new : Invitation = record {
      id = id;
      organization_id = org;
      inviter_id = current.user_id;
      email = input.email;
      role = input.role;
      status = pending;
      token_hash = some (digest value);
      revision = 1;
      expires_at = now + invitation_ttl;
      accepted_at = none;
      teams = input.team_ids;
    } in
    let mine : is_invited org input.email new ≡ true =
      ground (arith, (==_iff org org).1 refl, (string_eq.beq_iff input.email input.email).1 refl) in
    ground (
      arith,
      mine,
      count-none (is_invited org input.email) rest,
      count-append (is_invited org input.email) rest new,
    )

-- After an invitation is created, it is the only pending one of its workspace for its address.
pub create_only :
    (digest : List ℕ → Ident) (input : InvitationInput) (id : Ident) (value : List ℕ) (now : ℕ)
    (db db' : Db) (current : Current) (issued : Issued)
    → create digest input id value now db current ≡ ok (db', issued)
    → count (is_invited current.member.organization_id input.email) db'.invitations ≡ 1
create_only digest input id value now db db' current issued e =
    After-ok _ _ _ (create-After digest input id value now db current) e
