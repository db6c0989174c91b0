-- ===== src/Tasks.antt =====
-- The background tasks on reservations, src/background_tasks.py.
pub mod Expiry
pub mod Freed
mod Examples
