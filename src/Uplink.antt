-- ===== src/Uplink.antt =====
-- The uplink endpoint, `process_uplink` of src/main.py, with the rows it writes.
pub mod Tables
pub mod Confirm
pub mod Endpoint
pub mod Guard
mod Examples
