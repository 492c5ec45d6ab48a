-- ===== src/Core.antt =====
-- The core crate, rust_frp_core.
pub mod Messages
