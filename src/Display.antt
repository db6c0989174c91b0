-- ===== src/Display.antt =====
-- The display state machine (src/display_state_machine.py).
pub mod Types
pub mod Store
pub mod Policy
pub mod Compute
pub mod Machine
pub mod RoundTrip
pub mod Stall
pub mod Priority
mod Examples
