-- ===== src/Worker/Retention/Tests.antt =====
-- Two releases that are long inactive, one of them named by an event, and one that is active.
use get_exception.Base.{◌+◌, ◌≡◌, refl, any, leb, length, none, some, [], ◌∷◌}
use get_exception.Worker.Release.{Release}
use get_exception.Worker.Retention.{Tables, is_removable, retain_releases}
use get_exception.Base.{inl, inr}
use get_exception.Base.Table.Keys.{In}
use get_exception.Worker.Retention.Kept.{by_event, retain_releases_keeps}
use get_exception.Worker.Retention.Progress.{retain_releases_progress}

abbrev old_release : Release
old_release = record {
  id = 2;
  project_id = 1;
  name = "web@2";
  app_version = none;
  last_activity_at = 20;
}

abbrev named_release : Release
named_release = record {
  id = 1;
  project_id = 1;
  name = "web@1";
  app_version = none;
  last_activity_at = 10;
}

abbrev active_release : Release
active_release = record {
  id = 3;
  project_id = 1;
  name = "web@3";
  app_version = none;
  last_activity_at = 7776000000;
}

abbrev before : Tables
before = record {
  releases = old_release ∷ named_release ∷ active_release ∷ [];
  events = record { project_id = 1; release = some "web@1" } ∷ [];
  histories = [];
  uploads = [];
  inbox = [];
}

removes_old : (retain_releases 7776000100 before).0.releases ≡ (named_release ∷ active_release ∷ [])
unfolding retain_releases
removes_old = refl

some_can_go :
    leb 1 (retain_releases 7776000100 before).1
    ≡ any (is_removable 7776000100 before) before.releases
some_can_go = retain_releases_progress 7776000100 before

retain_releases_keeps_example :
    In named_release (retain_releases 7776000100 before).0.releases
    × ((retain_releases 7776000100 before).1 + length (retain_releases 7776000100 before).0.releases
        ≡ length before.releases)
retain_releases_keeps_example =
    retain_releases_keeps 7776000100 before named_release (inr (inl refl))
      (by_event (record { project_id = 1; release = some "web@1" }) (inl refl) refl refl)
