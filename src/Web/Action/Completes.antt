-- ===== src/Web/Action/Completes.antt =====
-- What holds where an action completes.
use get_exception.Base.{◌≡◌, subst}
use get_exception.Web.AuthError.{Result, ok, err}
use get_exception.Web.Workspace.{Db}

abbrev pub Completes : {A : Type 0} → (Db → A → Type 0) → Db × Result A → Type 0
Completes P (db, ok a) = P db a
Completes P (db, err e) = Unit {0}

pub Completes-ok :
    {A : Type 0} (P : Db → A → Type 0) (x : Db × Result A) (db : Db) (a : A)
    → Completes P x
    → x ≡ (db, ok a)
    → P db a
Completes-ok P x db a h e = subst (Completes P) e h
