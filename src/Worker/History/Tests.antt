-- ===== src/Worker/History/Tests.antt =====
-- Runs of the histories, and the theorem about them at updates that come out of order.
use get_exception.Base.{Ident, ℕ, ◌≡◌, refl, true, false, none, some, List, [], ◌∷◌, All, any, inl}
use get_exception.Base.Table.Keys.{In}
use get_exception.Worker.History.{
  Sighting, History, IssueKey, production, not_after, transfer_issue_history,
}
use get_exception.Worker.History.{move_one}
use get_exception.Worker.History.Kept.{covers, transfer-covers}
use get_exception.Worker.History.Chronology.{replay, firsts, lasts, replay-extremes}

abbrev seen_at : ℕ → ℕ → History
seen_at time event =
    let s : Sighting = record {
      seen = time;
      event_id = event;
      release = none;
      app_version = none;
    } in
    record {
      project_id = 7;
      fingerprint = 600;
      environment = production;
      issue_id = some 40;
      canonical = true;
      first = s;
      first_known = true;
      last = s;
    }

abbrev updates : List History
updates = seen_at 300 3 ∷ seen_at 100 1 ∷ seen_at 400 4 ∷ []

first_of_all : (replay (seen_at 200 2) updates).first.seen ≡ 100
unfolding replay
first_of_all = refl

replay-extremes_example :
    All
      (λ s. not_after (replay (seen_at 200 2) updates).first s ≡ true)
      (firsts (seen_at 200 2) updates)
    × In (replay (seen_at 200 2) updates).first (firsts (seen_at 200 2) updates)
    × All
        (λ s. not_after s (replay (seen_at 200 2) updates).last ≡ true)
        (lasts (seen_at 200 2) updates)
    × In (replay (seen_at 200 2) updates).last (lasts (seen_at 200 2) updates)
replay-extremes_example = replay-extremes (seen_at 200 2) updates

abbrev issue_of : Ident → Ident → IssueKey
issue_of id fingerprint = record {
  id = id;
  project_id = 7;
  fingerprint = fingerprint;
  first_seen = 100;
}

abbrev regrouped : List History
regrouped = seen_at 200 2 ∷ record (seen_at 300 3) { fingerprint = 601; issue_id = some 41 } ∷ []

merged_first : transfer_issue_history (issue_of 40 600) (issue_of 41 601) regrouped ≡ (
    record (seen_at 200 2) { issue_id = some 41; canonical = false }
    ∷ record (seen_at 300 3) {
      fingerprint = 601;
      issue_id = some 41;
      first = (seen_at 200 2).first;
    }
    ∷ [])
unfolding transfer_issue_history move_one
merged_first = refl

transfer-covers_example :
    any
      (covers (issue_of 41 601) (seen_at 200 2))
      (transfer_issue_history (issue_of 40 600) (issue_of 41 601) regrouped)
    ≡ true
transfer-covers_example =
    transfer-covers (issue_of 40 600) (issue_of 41 601) regrouped (seen_at 200 2)
      ((λ _. refl), ((λ _. refl), tt)) (inl refl) refl
