-- ===== src/Estate.antt =====
-- The sites and the spaces of the tenants: src/routers/sites.py, src/routers/spaces_tenanted.py and
-- the cache of src/cache.py, with the constraints and triggers of the migrations 001, 002, 003 and
-- 008.
pub mod Types
pub mod Apart
pub mod Sites
pub mod Rows
pub mod Spaces
pub mod Cache
pub mod Calls
pub mod Clash
pub mod Listing
pub mod Stale
pub mod Steps
pub mod Sound
pub mod Isolation
pub mod Deleted
pub mod Lost
pub mod Blocked
pub mod Lifecycle
mod Examples
