-- ===== src/Web/Fixtures.antt =====
-- A workspace with two owners and a third user, for the tests of the dashboard's server.
use get_exception.Base.{zero, suc, Ident, ℕ, ◌+◌, String, true, false, none, some, List, [], ◌∷◌}
use get_exception.Web.AuthError.{Result, ok, err}
use get_exception.Web.Workspace.{
  User, Session, Credential, Project, totp, active, Member, owner, Db, Current,
}

abbrev pub ann : Member
ann = record { id = 11; organization_id = 1; user_id = 101; role = owner; active = true }

abbrev pub bob : Member
bob = record { id = 12; organization_id = 1; user_id = 102; role = owner; active = true }

abbrev pub as_ann : Current
as_ann = record { member = ann; user_id = 101; session_id = 201 }

abbrev pub as_bob : Current
as_bob = record { member = bob; user_id = 102; session_id = 202 }

abbrev pub account : Ident → String → User
account id email = record {
  id = id;
  email = email;
  email_verified = true;
  disabled = false;
  two_factor_enabled = true;
}

abbrev pub session : Ident → Ident → Session
session id user = record {
  id = id;
  user_id = user;
  expires_at = 28800000;
  created_at = 0;
  last_seen_at = 0;
  mfa_verified_at = some 0;
  mfa_method = some totp;
}

abbrev pub credential : Ident → Credential
credential user = record {
  user_id = user;
  state = active;
  ciphertext = user;
  last_counter = none;
  expires_at = none;
}

abbrev pub web : Project
web = record {
  id = 41;
  organization_id = 1;
  name = "Web";
  slug = "web";
  enabled = true;
  deleted_at = none;
}

abbrev pub before : Db
before = record {
  users = account 101 "ann@x.org" ∷ account 102 "bob@x.org" ∷ account 103 "cat@x.org" ∷ [];
  members = ann ∷ bob ∷ [];
  sessions = session 201 101 ∷ session 202 102 ∷ session 203 103 ∷ [];
  accounts = [];
  credentials = credential 101 ∷ credential 102 ∷ [];
  recovery_codes = [];
  rate_buckets = [];
  organizations = 1 ∷ [];
  setting = some "x.org";
  bootstrap = none;
  setup_sessions = [];
  teams = record { id = 31; organization_id = 1; name = "web" } ∷ [];
  team_members = [];
  projects = web ∷ [];
  project_origins = [];
  ingestion_keys = [];
  project_teams = record { project_id = 41; team_id = 31 } ∷ [];
  invitations = [];
  enrollments = [];
  verifications = [];
  mail = [];
  audit_log = [];
}

-- The database after a success.
abbrev pub state_of : {A : Type 0} → Db → Result (Db × A) → Db
state_of db (ok r) = r.0
state_of db (err e) = db

-- A toy hash, and tokens that it tells apart.
abbrev pub sum : List ℕ → Ident
sum [] = 0
sum (c ∷ cs) = c + sum cs

abbrev pub repeat : ℕ → ℕ → List ℕ
repeat zero c = []
repeat (suc n) c = c ∷ repeat n c
