-- ===== src/Web/Projects/Tests.antt =====
-- The theorems about projects and their keys at concrete inputs.
use get_exception.Base.{◌≤◌, ◌≡◌, refl, false, some, [], ◌∷◌, ltb, if◌then◌else◌, arith}
use get_exception.Base.Table.{count}
use get_exception.Web.AuthError.{ok, err, auth_error}
use get_exception.Web.Workspace.{Db}
use get_exception.Web.Fixtures.{before, as_ann, web, state_of}
use get_exception.Web.Projects.{ProjectInput, create_project, delete_project, restore_project}
use get_exception.Web.Projects.Slugs.{IsDistinct, created, Change-IsDistinct}
use get_exception.Web.Projects.Recovery.{projects_of, restore-delete}
use get_exception.Web.IngestionKeys.{is_valid, max_keys, rotate_key}
use get_exception.Web.IngestionKeys.Valid.{rotate_key_bound, rotate_key_alone}

abbrev api : ProjectInput
api = record { name = "API"; slug = "api"; origins = "https://x.org" ∷ [] }

abbrev with_api : Db
unfolding create_project
with_api = state_of before (create_project api 42 61 7 before as_ann)

before-IsDistinct : IsDistinct before
before-IsDistinct = record { keyed = omega arith; slugs = λ org slug. ground arith }

Change-IsDistinct_example : IsDistinct with_api
unfolding create_project
Change-IsDistinct_example =
    Change-IsDistinct before with_api before-IsDistinct
      (created api 42 61 7 as_ann with_api 42 (omega arith) refl)

abbrev deleted : Db
unfolding delete_project
deleted = state_of before (delete_project 41 "web" 5000 before as_ann)

restore-delete_example : projects_of (restore_project 41 9000 deleted as_ann) ≡ (
    if ltb 9000 604805000
    then ok before.projects
    else err (auth_error 409 (some "project_expired")))
unfolding delete_project
restore-delete_example =
    restore-delete 41 "web" 5000 9000 604805000 before deleted as_ann web (tt, tt) refl refl refl

abbrev rotated : Db
unfolding rotate_key
rotated = state_of before (rotate_key false 41 62 8 5000 before as_ann)

rotate_key_bound_example : count (is_valid 41 6000) rotated.ingestion_keys ≤ max_keys
unfolding rotate_key
rotate_key_bound_example =
    rotate_key_bound false 41 62 8 5000 6000 before rotated as_ann 62 (omega arith) refl

one_key_left : count (is_valid 41 86405000) rotated.ingestion_keys ≡ 1
unfolding rotate_key
one_key_left =
    rotate_key_alone false 41 62 8 5000 86405000 before rotated as_ann 62 (omega arith) refl
