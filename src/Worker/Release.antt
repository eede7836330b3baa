-- ===== src/Worker/Release.antt =====
-- apps/worker/src/events.ts, the release part of the transaction of `processJob`, with the trigger
-- `release_activity_chronology` of the database.
use get_exception.Base.{
  ℕ, max, Bool, true, false, ◌&&◌, Option, none, some, List, [], ◌∷◌, ◌++◌, ◌==◌, ◌===◌, string_eq,
  if◌then◌else◌, String,
}
use get_exception.Base.Table.{update, update_many}
use get_exception.Base.{Ident}

pub record Release : Type 0 where
  pub id : Ident
  pub project_id : Ident
  pub name : String
  pub app_version : Option String
  pub last_activity_at : ℕ

abbrev pub is_release : Ident → String → Release → Bool
is_release project name r = r.project_id == project && (r.name === name)

-- `tx.release.upsert` on (projectId, name), with the trigger.
unfoldable pub upsert_release : Release → Option Release → List Release → Release × List Release
upsert_release new none releases = (new, releases ++ (new ∷ []))
upsert_release new (some r) releases =
    let active = λ (s : Release). record s {
      last_activity_at = max s.last_activity_at new.last_activity_at;
    } in
    (active r, update (is_release new.project_id new.name) active releases)

abbrev pub lacks_version : Option String → Bool
lacks_version none = true
lacks_version (some v) = false

-- A value that JavaScript takes for true: neither undefined nor the empty string.
abbrev pub truthy : Option String → Option String
truthy none = none
truthy (some t) = if t === "" then none else some t

-- `tx.release.updateMany({ where: { id, appVersion: null }, … })`, if the event has a version.
abbrev pub name_version : Option String → Ident → List Release → List Release
name_version none id releases = releases
name_version (some v) id releases =
    update_many (λ r. r.id == id && lacks_version r.app_version)
      (λ r. record r { app_version = some v }) releases
