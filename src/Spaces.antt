-- ===== src/Spaces.antt =====
-- The states of the spaces, src/state_manager.py.
pub mod Types
pub mod Lock
pub mod Protocol
pub mod Exclusion
pub mod Display
pub mod Manager
pub mod Untouched
pub mod Refinement
pub mod Automaton
pub mod Availability
pub mod History
pub mod Faults
mod Examples
