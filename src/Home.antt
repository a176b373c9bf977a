-- ===== src/Home.antt =====
-- The home page (frontend/src/js/main/body.js).
pub mod Films
pub mod Slider
