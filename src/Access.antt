-- ===== src/Access.antt =====
-- Who may do what: src/auth.py, src/tenant_auth.py and src/api_scopes.py.
pub mod Types
pub mod Keys
pub mod Tenant
pub mod Roles
pub mod Scopes
pub mod Grants
pub mod Sound
pub mod Ranks
mod Examples
