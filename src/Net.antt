-- ===== src/Net.antt =====
-- The protocols of rust_frp_net.
pub mod WireV2
pub mod Crypto
pub mod Compress
pub mod ProxyProtocol
