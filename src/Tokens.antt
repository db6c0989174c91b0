-- ===== src/Tokens.antt =====
-- Refresh tokens, src/refresh_token_service.py: the table, the service, and what its calls do on the
-- migrated schema.
pub mod Types
pub mod Service
pub mod Barren
mod Examples
