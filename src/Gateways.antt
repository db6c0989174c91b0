-- ===== src/Gateways.antt =====
-- The gateways as the service sees them, src/gateway_monitor.py.
pub mod Monitor
pub mod Stale
mod Examples
