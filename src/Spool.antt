-- ===== src/Spool.antt =====
-- The webhook spool, src/webhook_spool.py: payloads kept in files while they cannot be processed.
pub mod Files
pub mod Worker
pub mod Round
pub mod Kept
pub mod Fate
mod Examples
