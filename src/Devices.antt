-- ===== src/Devices.antt =====
-- What comes from devices: their identifiers and uplinks, and those that have no space yet.
pub mod Eui
pub mod Normal
pub mod Handlers
pub mod Registry
mod Examples
