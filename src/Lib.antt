-- ===== src/Lib.antt =====
-- Verification of rust_frp, a reverse proxy: a server (rust_frp_server) accepts visitors on public
-- ports and carries their connections to clients (rust_frp_client) behind a firewall.
--
-- The program. A client logs in to the server over a control connection, which starts with the
-- handshake of the second wire protocol (rust_frp_net/src/wire_v2.rs) and is encrypted from then
-- on (rust_frp_net/src/crypto.rs). Logins that fail are counted and locked out
-- (rust_frp_server/src/login_throttle.rs). The client then registers proxies; the server checks
-- them, charges their ports to the user and opens listeners, which members of a group share
-- (rust_frp_server/src/proxy_manager.rs). A visitor's connection is joined to a work connection
-- from the proxy's pool (rust_frp_server/src/work_conn.rs). An STCP visitor is itself a client:
-- the server joins the two work connections of the owner and the visitor at a bridge
-- (rust_frp_server/src/control.rs).
--
-- The files, each with the source it models and how:
-- - Common: finite maps for HashMap (an association list without a key twice; the order of the
--   entries is that of insertion), results, tests on numbers, equality of keys, byte texts,
--   signed numbers, members of lists and maps.
-- - Core/Messages: the reading and writing of messages in rust_frp_core/src/lib.rs. RoundTrip and
--   Limits prove.
-- - Net/WireV2: rust_frp_net/src/wire_v2.rs. Frame is Frame, read_frame, write_frame and
--   check_magic on lists of bytes; Hello the two hellos and their checks; Keys the transcript,
--   HKDF and the keys of a role; Handshake client_handshake (in two halves, client_offer and
--   client_finish) and server_handshake. RoundTrip, Agreement, Negotiation and Derivation prove.
-- - Net/Crypto: rust_frp_net/src/crypto.rs, the EncryptedStream: next_nonce, seal_into_out_buf,
--   the loop of poll_write over its chunks (seal_chunks), try_decrypt_frame. Polls has
--   try_drain_out, poll_read, poll_write, poll_flush and poll_shutdown. Frames, Nonces, Transfer
--   and the files of Polls (Drains, Sealing, Written, Reader, Reads, Delivered, Channel, Arrival)
--   prove.
-- - Net/ProxyProtocol: rust_frp_net/src/proxy_protocol.rs, all of it. Reading reads a header as
--   the protocol says, and proves.
-- - Net/Compress: rust_frp_net/src/compress.rs, the CompressedStream: compress_into_out_buf, the
--   loop of poll_write over its blocks (compress_blocks), try_decompress_frame. RoundTrip proves.
-- - Server/Throttle: rust_frp_server/src/login_throttle.rs, all of it.
-- - Server/Clients: ControlManager of rust_frp_server/src/control.rs, all of it. Calls has the
--   calls as data, Takeover kick_same_client; History, Takeover/Effect and Takeover/Sessions
--   prove.
-- - Server/Login: the login at the start of Control::run in rust_frp_server/src/control.rs, which
--   works on the manager of Server/Clients and its throttle. Entry and Outcomes prove.
-- - Server/Session: handle_register_proxy and cleanup_proxies of rust_frp_server/src/control.rs,
--   on the accounts of Server/Proxies. Cleanup and Ending prove.
-- - Server/Bridge: BridgeManager of rust_frp_server/src/control.rs, all of it. State has one
--   bridge, Bridge the tables and the calls; Claims, Invariant, Replay and Legs prove.
-- - Server/WorkPool: ServerWorkConnManager of rust_frp_server/src/work_conn.rs: register_entry is
--   register_work_conn on a pool, get_from_pool is get_work_conn. Delivery, Handing and Retries
--   prove.
-- - Server/Groups: GroupRegistry of rust_frp_server/src/proxy_manager.rs, all of it. join_check and
--   join_enter are the halves of join. Registry, Interleaving and Rotation prove.
-- - Server/Proxies: the accounts of ServerProxyManager in rust_frp_server/src/proxy_manager.rs:
--   add_proxy_inner, remove_proxy, clear, release_user_quota, port_allowed, and what start_proxy
--   and stop_proxy do to the groups. Limits, Rollback and StaleGroup prove.
-- - Server/TcpMux: TcpMuxRouter of rust_frp_server/src/tcpmux.rs, all of it. Removal, Candidates
--   and Credentials prove.
-- - Server/Vhost: HttpVhostRouter of rust_frp_server/src/vhost.rs, all of it. Lookup proves.
-- - Util/ConstantTime: constant_time_eq of rust_frp_util/src/lib.rs.
-- - Util/LocalTime: civil_from_days and days_from_civil of rust_frp_util/src/localtime.rs, with i64
--   as integers that do not overflow. Calendar proves.
-- Each component has a file Runs with tests at concrete inputs.
--
-- How the code is modelled. State is a record that each operation takes and returns. Where the
-- code holds a lock for a whole call, a call is one step and an interleaving is a list of calls.
-- Where it lets go of a lock in the middle, what others do meanwhile is an argument (get_work_conn
-- between two retries, kick_same_client while an old session ends) or the halves are steps of
-- their own (the join of a group, in Groups/Interleaving). Some calls are one step although the
-- code takes several locks one after the other: those of Server/Proxies (add_proxy_inner, with the
-- join in it, remove_proxy and clear), and the register and unregister calls of the two routers
-- (register_proxy and unregister_proxy in Vhost); what is shown of them is shown of calls that do
-- not overlap. Clocks (in nanoseconds), random bytes, the answers of the network and what is still
-- listening are arguments. Results are values: Option, Result, or the error types that stand
-- beside the code's messages; what a handshake has written before an error is not kept.
-- Subtraction of times stops at 0, as saturating_duration_since and duration_since do; rr_index
-- wraps at 2^64, the counter of HKDF at 2^8; a nonce counter beyond 2^32 - 1 is an error. The
-- polls of the encrypted stream are given the answers of the connection below, one for each call
-- of it.
--
-- Fuel. The loop of hkdf_sha256 (Keys.expand) has fuel for one round per byte that is wanted,
-- which is enough as an HMAC is never empty. The chunks and blocks of poll_write have the length
-- of the data as fuel, which is enough as a chunk is never empty. The retries of get_work_conn are
-- the code's own bound. All other loops are recursion on a list.
--
-- Parameters. SHA-256, HMAC and AES-256-GCM (the crate ring), snappy (snap), base64, the texts of
-- IP addresses (std::net) and of JSON (serde_json) are arguments. What is asked of them is named
-- where it is used: Travels and ReadsBack (a hello, a message is read back as it was written),
-- Opens and Seals (the cipher opens what it sealed, with a tag of 16 bytes, and seals what fits
-- into a frame), GivesAddresses (an IP address has the octets of its family), Restores (snappy
-- restores a block, within its bound), GivesBytes (an HMAC is not empty). No security of a cipher
-- or a hash is assumed or shown. The verification of a login's token and the plugins are functions
-- of the model's user, as are the calls that others make meanwhile.
--
-- Not modelled: the local time zone, the loop of messages of a session and the client, the
-- listeners and the tasks that copy data, the parsers of HTTP and CONNECT requests, metrics, the
-- configuration, the plugins, the other transports (QUIC, KCP, mux, STUN), the web interfaces and
-- the desktop programs.
pub mod Common
pub mod Core
pub mod Server
pub mod Net
pub mod Util
