-- ===== src/Accounts.antt =====
-- Users and their sessions: src/api_tenants.py, with create_access_token and verify_password of
-- src/tenant_auth.py, over the tables of migrations/002_multi_tenancy_rbac.sql.
pub mod Types
pub mod Sessions
pub mod Keys
pub mod Searches
pub mod Profile
pub mod Refresh
pub mod Owner
mod Examples
