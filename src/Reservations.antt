-- ===== src/Reservations.antt =====
-- Reservations: src/routers/reservations.py, with the table of the migrations 001, 004 and 005, and
-- the expiry of src/background_tasks.py.
pub mod Types
pub mod Booking
pub mod Disjoint
pub mod Requests
mod Examples
