-- ===== src/Web.antt =====
-- apps/web/src/server: the dashboard's server.
pub mod Access
pub mod Crypto
pub mod Fixtures
pub mod Tests
pub mod AuthError
pub mod Workspace
pub mod Members
pub mod Teams
pub mod Invitations
pub mod Issues
pub mod WorkBudget
pub mod Action
pub mod Auth
pub mod Projects
pub mod IngestionKeys
