-- ===== src/Concert.antt =====
-- The concert pages.
pub mod Seat
pub mod Modal
pub mod Page
