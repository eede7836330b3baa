-- ===== src/Browser/Transport/Pending.antt =====
-- The requests under way.
use get_exception.Base.{Ident, ℕ, ◌≤◌, ◌≡◌, Bool, Option, List, length, list_eq}
use get_exception.Ingest.Http.{Text}
use get_exception.Browser.Dsn.{Url}
use get_exception.Browser.Transport.{
  Client, Options, Item, Ending, init, send, settle, finish_close,
}

module _ (parse : Text → Option Url) (seconds date : Text → Option ℕ) where
  pub data Step : Client → Client → Type 0 where
    by_init : (starts : Bool) (o : Option Options) (c : Client) → Step c (init parse starts o c)
    by_send :
        (id : Ident) (now : ℕ) (items : List Item) (c : Client) → Step c (send id now items c).0
    by_settle :
        (id : Ident) (now : ℕ) (ending : Ending) (c : Client)
        → Step c (settle seconds date id now ending c)
    by_close : (c : Client) → Step c (finish_close c).0

  pub data Reach (start : Client) : Client → Type 0 where
    here : Reach start start
    next : {c d : Client} → Reach start c → Step c d → Reach start d

  abbrev pub IsTracked : Client → Type 0
  IsTracked c = (length c.pending ≤ 30) × (c.controllers ≡ c.pending)
