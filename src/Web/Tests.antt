-- ===== src/Web/Tests.antt =====
-- The theorems about members, teams, invitations and issues at concrete inputs.
use get_exception.Base.{ℕ, ◌≡◌, refl, true, false, some, List, [], ◌∷◌, any, arith}
use get_exception.Base.Table.{count, update}
use get_exception.Worker.Issue.{Issue, opened, resolved, touch, is_issue}
use get_exception.Web.Issues.{change_issue_status}
use get_exception.Web.Issues.Stale.{change_issue_status_stale}
use get_exception.Web.AuthError.{Result, ok, err, succeeds}
use get_exception.Web.Workspace.{developer, viewer, Db, owner_transaction}
use get_exception.Web.Fixtures.{bob, as_ann, as_bob, account, before, state_of, sum, repeat}
use get_exception.Web.Members.{MemberInput, save_member, delete_member}
use get_exception.Web.Members.Owners.{HasOwner, start, next, member_saved, Reach-HasOwner}
use get_exception.Web.Members.Revoked.{has_access, save_member_denied, has_access-delete_member}
use get_exception.Web.Teams.{TeamInput, save_team, links}
use get_exception.Web.Teams.Links.{save_team_keeps_links}
use get_exception.Web.Invitations.Issue.{InvitationInput, Issued, create, change, reissue}
use get_exception.Web.Invitations.Redeem.{Registration, accept, begin_registration}
use get_exception.Web.Invitations.Pending.{is_invited, create_only}
use get_exception.Base.{inl, codes}
use get_exception.Web.Auth.Tests.{toy}
use get_exception.Web.Invitations.Finish.{NewIds, finish_registration}
use get_exception.Web.Invitations.Redeemed.{redeemed_once}
use get_exception.Web.Invitations.Once.{change_closes}

abbrev to_viewer : MemberInput
to_viewer = record { role = viewer; active = true; team_ids = 31 ∷ [] }

abbrev demoted : Db
unfolding save_member
demoted = state_of before (save_member to_viewer 12 before as_ann)

Reach-HasOwner_example : HasOwner 1 demoted
unfolding save_member owner_transaction
Reach-HasOwner_example = Reach-HasOwner 1 before demoted (omega arith) (
    next before demoted start
      (member_saved (ok as_ann) as_ann 12 to_viewer demoted false refl refl))

save_member_denied_example :
    succeeds (owner_transaction (ok as_bob) (ok as_bob) (delete_member "ann@x.org" 11) demoted)
    ≡ false
unfolding save_member
save_member_denied_example =
    save_member_denied to_viewer before demoted as_ann as_bob false (ok as_bob)
      (delete_member "ann@x.org" 11) refl refl

abbrev deleted : Db
unfolding delete_member
deleted = state_of before (delete_member "bob@x.org" 12 before as_ann)

has_access-delete_member_example : has_access 102 "bob@x.org" 1 deleted ≡ false
unfolding delete_member
has_access-delete_member_example =
    has_access-delete_member 12 "bob@x.org" before deleted as_ann bob (account 102 "bob@x.org") refl
      refl refl

abbrev renamed : TeamInput
renamed = record { name = "app"; member_ids = 12 ∷ []; project_ids = 41 ∷ [] }

abbrev saved : Db
unfolding save_team
saved = state_of before (save_team (some 31) 0 renamed before as_ann)

keeps_link : any (links 41) saved.project_teams ≡ true
unfolding save_team
keeps_link = save_team_keeps_links (some 31) 0 41 31 renamed before saved as_ann refl refl

abbrev first_link : List ℕ
first_link = repeat 64 97

abbrev second_link : List ℕ
second_link = repeat 64 98

abbrev newcomer : Registration
newcomer = record { token = second_link; password_hash = 9; pending_ciphertext = 0 }

abbrev invite_cat : InvitationInput
invite_cat = record { email = "cat@x.org"; role = developer; team_ids = 31 ∷ [] }

abbrev cat_invitation : Issued
cat_invitation = record { id = 51; token = first_link; expires_at = 86401000 }

abbrev invited : Db
unfolding create
invited = state_of before (create sum invite_cat 51 first_link 1000 before as_ann)

only_pending : count (is_invited 1 "cat@x.org") invited.invitations ≡ 1
unfolding create
only_pending =
    create_only sum invite_cat 51 first_link 1000 before invited as_ann cat_invitation refl

abbrev after_join : Result Db → Db
after_join (ok db) = db
after_join (err e) = before

abbrev joined : Db
unfolding accept
joined = after_join (accept sum 51 first_link 103 "cat@x.org" 203 13 2000 invited)

abbrev cat_ids : NewIds
cat_ids = record { user = 104; member = 14; session = 204 }

redeemed_once_example :
    (succeeds (accept sum 51 first_link 103 "cat@x.org" 203 14 3000 joined) ≡ false)
    × (succeeds (begin_registration sum 51 first_link 61 newcomer 3000 3000 joined) ≡ false)
    × (succeeds (finish_registration toy cat_ids [] 51 first_link (codes "000007") 3000 joined)
        ≡ false)
unfolding create accept
redeemed_once_example =
    redeemed_once toy 51 first_link 103 "cat@x.org" 203 13 2000 cat_ids [] [] invited joined
      first_link 103 "cat@x.org" 203 14 61 3000 3000 newcomer cat_ids [] (codes "000007") (inl refl)

abbrev reissued : Db
unfolding create change
reissued = state_of before (change sum 51 reissue second_link 1500 invited as_ann)

change_closes_example :
    succeeds (accept sum 51 first_link 103 "cat@x.org" 203 13 2000 reissued) ≡ false
    × succeeds (begin_registration sum 51 first_link 61 newcomer 2000 2000 reissued) ≡ false
unfolding create change
change_closes_example =
    change_closes sum 51 reissue second_link 1500 invited reissued as_ann
      (some (record { id = 51; token = second_link; expires_at = 86401500 })) first_link 103
      "cat@x.org" 203 13 61 2000 2000 newcomer refl refl

abbrev failing : Issue
failing = record {
  id = 71;
  project_id = 41;
  fingerprint = 81;
  title = "boom";
  exception_type = "Error";
  first_seen = 500;
  last_seen = 900;
  event_count = 2;
  status = opened;
  regression = false;
}

change_issue_status_stale_example :
    succeeds (
      change_issue_status
        (ok as_ann)
        71
        resolved
        2
        before
        (update (is_issue 71) (touch 950) (failing ∷ [])))
    ≡ false
unfolding change_issue_status
change_issue_status_stale_example =
    change_issue_status_stale as_ann 71 resolved 2 950 before (failing ∷ []) (tt, tt) refl
