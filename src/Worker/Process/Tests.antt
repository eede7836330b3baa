-- ===== src/Worker/Process/Tests.antt =====
-- Runs of a worker's transaction, and the theorems about it at a concrete store.
use get_exception.Base.{ℕ, ◌≡◌, refl, true, false, some, none, [], ◌∷◌, any}
use get_exception.Worker.Inbox.{claim, lease, is_held}
use get_exception.Worker.Inbox.Tests.{
  always, never, slow_job, leased_queue, claimed_again, same_row, other_token,
}
use get_exception.Worker.History.{production}
use get_exception.Worker.Process.{Store, Event, Fresh, has_event, commit}
use get_exception.Worker.Issue.{Issue, resolved, opened}
use get_exception.Worker.Process.Once.{commit_stores, commit_once, commit_fenced}

abbrev failure : Event ℕ
failure = record {
  message = "boom";
  exception_type = "Error";
  environment = production;
  release = some "shop@1";
  app_version = none;
  details = 0;
}

-- An issue that was resolved, with its one event.
abbrev closed_issue : Issue
closed_issue = record {
  id = 40;
  project_id = 7;
  fingerprint = 600;
  title = "boom";
  exception_type = "Error";
  first_seen = 500;
  last_seen = 500;
  event_count = 0;
  status = resolved;
  regression = false;
}

abbrev before : Store ℕ ℕ
before = record {
  inbox = leased_queue;
  events = [];
  issues = closed_issue ∷ [];
  histories = [];
  releases = [];
  deployments = [];
}

abbrev fresh : Fresh
fresh = record { issue = 41; release = 50 }

abbrev after : Store ℕ ℕ
after = commit 0 fresh 7 slow_job failure 600 before

-- The resolved issue is open again, as a regression.
reopened :
    after.issues
    ≡ record closed_issue { event_count = 1; last_seen = 1000; status = opened; regression = true }
      ∷ []
unfolding commit lease is_held
reopened = refl

held : is_held slow_job before.inbox ≡ true
unfolding is_held lease
held = refl

stores_event : any (has_event 7 71) after.events ≡ true
unfolding lease
stores_event = commit_stores 0 fresh 7 slow_job failure 600 before held

commit_once_example :
    commit 0 fresh 7 slow_job failure 601 after
    ≡ record after { inbox = (commit 0 fresh 7 slow_job failure 601 after).inbox }
commit_once_example =
    commit_once 0 0 fresh fresh 7 slow_job slow_job failure failure 600 601 before held refl

abbrev taken : Store ℕ ℕ
taken = record before { inbox = (claim always never 95000 901 leased_queue).0 }

commit_fenced_example : commit 0 fresh 7 slow_job failure 600 taken ≡ taken
commit_fenced_example =
    commit_fenced 0 fresh 7 slow_job (lease 95000 901 slow_job) failure 600 always never 95000 901
      before (tt, tt) claimed_again same_row other_token
