-- ===== src/Forms.antt =====
-- The account forms (frontend/src/js/user).
pub mod Fields
pub mod Signup
pub mod ChangePw
pub mod Edit
pub mod Login
pub mod PwFind
