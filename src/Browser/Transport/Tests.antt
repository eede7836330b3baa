-- ===== src/Browser/Transport/Tests.antt =====
-- Runs of the SDK's transport, with a URL that is always the same and delays of 90 seconds.
use get_exception.Base.{ℕ, ◌≡◌, refl, true, Option, some, List, [], ◌∷◌, codes, inl, arith}
use get_exception.Ingest.Http.{Text}
use get_exception.Ingest.Http.Tests.{key_text}
use get_exception.Browser.Dsn.{Url, dsn_endpoint, retry_after}
use get_exception.Browser.Transport.{
  Client, Options, Item, answered, posted, response, lost, fresh, init, send, settle, finish_close,
}
use get_exception.Browser.Transport.Pending.{here}
use get_exception.Browser.Transport.Backoff.{send_silent}

abbrev page_url : Url
page_url = record {
  protocol = codes "https:";
  origin = codes "https://e.example";
  username = key_text;
  password = [];
  search = [];
  hash = [];
  pathname = codes "/0c2b8f4e-1111-4222-8333-444444444444";
}

abbrev parse_page : Text → Option Url
parse_page dsn = some page_url

abbrev ninety : Text → Option ℕ
ninety t = some 90000

abbrev options : Option Options
options = some (record { dsn = []; enabled = true })

abbrev event_items : List Item
event_items = record { kind = codes "event"; body = some (codes "{}") } ∷ []

abbrev ready : Client
ready = record { active = true; pending = []; controllers = []; backoff_until = 0 }

abbrev one_sent : Client
one_sent = record { active = true; pending = 7 ∷ []; controllers = 7 ∷ []; backoff_until = 0 }

init_starts : init parse_page true options fresh ≡ ready
unfolding init dsn_endpoint
init_starts = refl

event_posted : send 7 1000 event_items ready ≡ (one_sent, posted (codes "{}"))
unfolding send
event_posted = refl

close_aborts : (finish_close one_sent).1 ≡ (7 ∷ [])
unfolding finish_close
close_aborts = refl

seconds_read : retry_after ninety ninety (some (codes "90")) 1500 ≡ 90000
unfolding retry_after
seconds_read = refl

words_ignored : retry_after ninety ninety (some (codes "-1")) 5 ≡ 60000
unfolding retry_after
words_ignored = refl

abbrev used : Client
used =
    settle ninety ninety 7 1500 lost
      (send 7 1000 event_items (init parse_page true options fresh)).0

abbrev told : Client
told = settle ninety ninety 7 1500 (response 429 (some (codes "90"))) one_sent

send_silent_example : send 8 91000 event_items told ≡ (told, answered 429)
send_silent_example =
    send_silent parse_page ninety ninety 7 8 1500 91000 (some (codes "90")) event_items one_sent
      told here (inl (rw seconds_read (omega arith)))
