-- ===== src/Web/Workspace/Schema.antt =====
-- The tables of packages/db/prisma/schema.prisma for people, their rights and their projects.
use get_exception.Base.{Ident, ℕ, String, Bool, Option, List}

pub data Role : Type 0 where
  owner developer viewer : Role

pub record User : Type 0 where
  pub id : Ident
  pub email : String
  pub email_verified : Bool
  pub disabled : Bool
  pub two_factor_enabled : Bool

-- The row of `auth_account` with the user's password.
pub record Account : Type 0 where
  pub user_id : Ident
  pub password : Ident

pub data MfaMethod : Type 0 where
  totp recovery enrollment : MfaMethod

-- `inactive` is the state "pending".
pub data CredentialState : Type 0 where
  inactive active : CredentialState

-- A `lastCounter` of -1 is `none`.
pub record Credential : Type 0 where
  pub user_id : Ident
  pub state : CredentialState
  pub ciphertext : Ident
  pub last_counter : Option ℕ
  pub expires_at : Option ℕ

pub record RecoveryCode : Type 0 where
  pub user_id : Ident
  pub code_hash : Ident
  pub used_at : Option ℕ

pub record RateBucket : Type 0 where
  pub id : Ident
  pub hits : ℕ
  pub expires_at : ℕ

pub record Bootstrap : Type 0 where
  pub token_hash : Ident
  pub expires_at : ℕ

pub record SetupSession : Type 0 where
  pub id : Ident
  pub token_hash : Ident
  pub user_id : Ident
  pub domain : String
  pub email : String
  pub password_hash : Option Ident
  pub pending_ciphertext : Option Ident
  pub expires_at : ℕ

pub record AuditEntry : Type 0 where
  pub action : String
  pub success : Bool
  pub actor : Option Ident

pub record Member : Type 0 where
  pub id : Ident
  pub organization_id : Ident
  pub user_id : Ident
  pub role : Role
  pub active : Bool

pub record Session : Type 0 where
  pub id : Ident
  pub user_id : Ident
  pub expires_at : ℕ
  pub created_at : ℕ
  pub last_seen_at : ℕ
  pub mfa_verified_at : Option ℕ
  pub mfa_method : Option MfaMethod

pub record Team : Type 0 where
  pub id : Ident
  pub organization_id : Ident
  pub name : String

pub record TeamMember : Type 0 where
  pub team_id : Ident
  pub member_id : Ident
  pub user_id : Ident

pub record Project : Type 0 where
  pub id : Ident
  pub organization_id : Ident
  pub name : String
  pub slug : String
  pub enabled : Bool
  pub deleted_at : Option ℕ

pub record ProjectOrigin : Type 0 where
  pub project_id : Ident
  pub origin : String

pub record IngestionKey : Type 0 where
  pub id : Ident
  pub project_id : Ident
  pub key_hash : Ident
  pub expires_at : Option ℕ
  pub revoked_at : Option ℕ

pub record ProjectTeam : Type 0 where
  pub project_id : Ident
  pub team_id : Ident

pub data InvitationStatus : Type 0 where
  pending accepted expired revoked : InvitationStatus

pub record Invitation : Type 0 where
  pub id : Ident
  pub organization_id : Ident
  pub inviter_id : Ident
  pub email : String
  pub role : Role
  pub status : InvitationStatus
  pub token_hash : Option Ident
  pub revision : ℕ
  pub expires_at : ℕ
  pub accepted_at : Option ℕ
  pub teams : List Ident

pub record Enrollment : Type 0 where
  pub id : Ident
  pub invitation_id : Ident
  pub revision : ℕ
  pub token_hash : Ident
  pub password_hash : Ident
  pub pending_ciphertext : Ident
  pub expires_at : ℕ

pub data MailStatus : Type 0 where
  waiting sending cancelled finished : MailStatus

pub record Mail : Type 0 where
  pub invitation_id : Ident
  pub payload : Option Ident
  pub status : MailStatus
  pub lease_token : Option Ident
  pub lease_until : Option ℕ

-- `verifications` lists the invitations of `invitation_verification`. `setting` is the domain of the
-- only row of `system_setting`, and `bootstrap` the only row of `bootstrap_token`.
pub record Db : Type 0 where
  pub setting : Option String
  pub bootstrap : Option Bootstrap
  pub setup_sessions : List SetupSession
  pub users : List User
  pub accounts : List Account
  pub sessions : List Session
  pub credentials : List Credential
  pub recovery_codes : List RecoveryCode
  pub rate_buckets : List RateBucket
  pub organizations : List Ident
  pub members : List Member
  pub teams : List Team
  pub team_members : List TeamMember
  pub projects : List Project
  pub project_teams : List ProjectTeam
  pub project_origins : List ProjectOrigin
  pub ingestion_keys : List IngestionKey
  pub invitations : List Invitation
  pub enrollments : List Enrollment
  pub verifications : List Ident
  pub mail : List Mail
  pub audit_log : List AuditEntry
