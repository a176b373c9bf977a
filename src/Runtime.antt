-- ===== src/Runtime.antt =====
-- The runtime that the pages share (frontend/src/js/common/app-config.js), but its account.
pub mod Files
pub mod Scroll
pub mod Requests
