-- ===== src/Protocol/Sanitizer/Sentry/Tests.antt =====
-- An event with a frame, a breadcrumb, a tag and an API context, sent and sanitized again.
use get_exception.Base.{◌≡◌, refl, true, false, none, some, [], ◌∷◌, codes}
use get_exception.Base.Dict.{get}
use get_exception.Protocol.Json.{str}
use get_exception.Protocol.Sanitizer.Parts.{passed, integer, bounded_time}
use get_exception.Protocol.Sanitizer.Texts.{safe_path, scrub}
use get_exception.Protocol.Sanitizer.Contexts.{Breadcrumb, status_of, sanitize_tags}
use get_exception.Protocol.Sanitizer.Event.{Frame, SafeEvent}
use get_exception.Protocol.Sanitizer.Schema.{safe_event, sanitize_event}
use get_exception.Protocol.Sanitizer.Sentry.{to_sentry_event}
use get_exception.Protocol.Sanitizer.Sentry.Stable.{IsStable, FrameIsStable, CrumbIsStable}
use get_exception.Protocol.Sanitizer.Sentry.RoundTrip.{sanitize_event-to_sentry_event}
use get_exception.Protocol.Sanitizer.Tests.{Double, finite, doubles, plain, event_id, tag_names}

abbrev frame : Frame Double
frame = record {
  filename = codes "/app.js";
  function = codes "render";
  lineno = finite 12;
  colno = finite 7;
  in_app = true;
  debug_id = none;
}

abbrev crumb_sent : Breadcrumb Double
crumb_sent = record {
  category = str (codes "http");
  timestamp = finite 999990;
  path = some (codes "/users");
  method = some (str (codes "GET"));
  status_code = some (finite 404);
  duration = none;
  operation = some (codes "load");
}

abbrev event_sent : SafeEvent Double
event_sent = record {
  event_id = event_id;
  timestamp = finite 999999;
  is_fatal = true;
  message = codes "x is undefined";
  exception_type = codes "TypeError";
  handled = false;
  environment = codes "production";
  release = none;
  app_version = some (codes "1.2.3");
  dist = some (codes "web");
  route = some (codes "/users");
  api = some (record {
    code = some (codes "E42");
    reason = some (codes "not_found");
    status_code = some (finite 404);
  });
  browser = some (record { name = codes "Firefox"; major = finite 140 });
  frames = frame ∷ [];
  tags = (codes "feature", codes "7") ∷ [];
  breadcrumbs = crumb_sent ∷ [];
}

frame-IsStable : FrameIsStable doubles plain frame
unfolding safe_path scrub integer
frame-IsStable = record {
  path_stays = refl;
  function_stays = refl;
  lineno_stays = refl;
  colno_stays = refl;
  debug_id_stays = refl;
}

crumb_sent-IsStable : CrumbIsStable doubles plain (finite 1000000) crumb_sent
unfolding bounded_time safe_path status_of scrub
crumb_sent-IsStable = record {
  category_known = refl;
  timestamp_stays = refl;
  crumb_path_stays = refl;
  method_known = refl;
  status_stays = refl;
  duration_stays = refl;
  operation_stays = refl;
}

event_sent-IsStable : IsStable doubles plain (finite 1000000) tag_names event_sent
unfolding safe_event bounded_time scrub safe_path sanitize_tags get
event_sent-IsStable = record {
  passes = refl;
  time_stays = refl;
  message_stays = refl;
  type_stays = refl;
  environment_stays = refl;
  release_stays = refl;
  version_stays = refl;
  dist_stays = refl;
  route_stays = refl;
  api_fits = refl;
  api_has_any = refl;
  browser_fits = refl;
  tags_stay = refl;
  frames_stay = (frame-IsStable, tt);
  few_frames = refl;
  crumbs_stay = (crumb_sent-IsStable, tt);
  few_crumbs = refl;
}

sanitize_event-to_sentry_event_example :
    sanitize_event doubles plain
      (to_sentry_event event_sent (codes "0.1.0"))
      event_id
      (finite 1000000)
      tag_names
    ≡ passed event_sent
sanitize_event-to_sentry_event_example =
    sanitize_event-to_sentry_event doubles plain (finite 1000000) tag_names event_sent
      (codes "0.1.0") event_sent-IsStable
