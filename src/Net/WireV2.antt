-- ===== src/Net/WireV2.antt =====
-- rust_frp_net/src/wire_v2.rs: the frames, the hellos, the key derivation and the handshake of the
-- second wire protocol.
pub mod Frame
pub mod Hello
pub mod Keys
pub mod Handshake
pub mod RoundTrip
pub mod Agreement
pub mod Negotiation
pub mod Derivation
mod Runs
