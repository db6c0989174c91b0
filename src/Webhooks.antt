-- ===== src/Webhooks.antt =====
-- The secrets that sign webhooks, src/webhook_validation.py.
pub mod Secrets
pub mod Rotation
mod Examples
