-- ===== src/Util.antt =====
-- The utility crate, rust_frp_util.
pub mod ConstantTime
pub mod LocalTime
