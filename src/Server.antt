-- ===== src/Server.antt =====
-- The server crate, rust_frp_server.
pub mod Throttle
pub mod Bridge
pub mod Clients
pub mod Login
pub mod Session
pub mod Groups
pub mod WorkPool
pub mod Proxies
pub mod TcpMux
pub mod Vhost
