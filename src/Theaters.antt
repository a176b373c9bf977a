-- ===== src/Theaters.antt =====
-- Films in theaters: the booking window of a screening.
pub mod Detail
pub mod Dataset
pub mod Prefill
pub mod Session
pub mod Panel
pub mod Month
