-- ===== src/Policies.antt =====
-- The display policies and the overrides that administrators set: src/routers/display_policies.py
-- over the tables of migrations/006_display_state_machine.sql.
pub mod Types
pub mod Endpoints
pub mod Changes
pub mod Calls
pub mod Replace
pub mod Governs
pub mod Overrides
mod Examples
