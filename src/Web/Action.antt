-- ===== src/Web/Action.antt =====
-- A method of the dashboard's server that makes several calls of the database: what was written
-- before an error stays written.
pub mod Completes
use get_exception.Base.{Bool, true, false, Option, none, some}
use get_exception.Web.AuthError.{AuthError, Result, ok, err}
use get_exception.Web.Workspace.{Db}

abbrev pub Action : Type 0 → Type 0
Action A = Db → Db × Result A

abbrev pub after : {A B : Type 0} → Db × Result A → (A → Action B) → Db × Result B
after (db, ok a) f = f a db
after (db, err e) f = (db, err e)

infixl 5 ◌>>=◌ ◌>>◌
abbrev pub ◌>>=◌ : {A B : Type 0} → Action A → (A → Action B) → Action B
◌>>=◌ m f db = after (m db) f

abbrev pub ◌>>◌ : {B : Type 0} → Action (Unit {0}) → Action B → Action B
m >> k = m >>= λ _. k

abbrev pub return : {A : Type 0} → A → Action A
return a db = (db, ok a)

abbrev pub throw : {A : Type 0} → AuthError → Action A
throw e db = (db, err e)

abbrev pub ensure : Bool → AuthError → Action (Unit {0})
ensure true e db = (db, ok tt)
ensure false e db = (db, err e)

-- A lookup that must succeed.
abbrev pub expect : {A : Type 0} → Option A → AuthError → Action A
expect none e db = (db, err e)
expect (some a) e db = (db, ok a)

abbrev pub query : {A : Type 0} → (Db → A) → Action A
query f db = (db, ok (f db))

abbrev pub write : (Db → Db) → Action (Unit {0})
write f db = (f db, ok tt)

-- `db.$transaction`: an error leaves the database as it was.
abbrev pub committed : {A : Type 0} → Db → Result (Db × A) → Db × Result A
committed db (ok (db', a)) = (db', ok a)
committed db (err e) = (db, err e)

abbrev pub transaction : {A : Type 0} → (Db → Result (Db × A)) → Action A
transaction f db = committed db (f db)

-- `try { … } catch (error) { …; throw error; }`
abbrev pub handled : {A : Type 0} → (Db → Db) → Db × Result A → Db × Result A
handled f (db, ok a) = (db, ok a)
handled f (db, err e) = (f db, err e)

abbrev pub on_error : {A : Type 0} → (Db → Db) → Action A → Action A
on_error f m db = handled f (m db)
