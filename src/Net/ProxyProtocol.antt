-- ===== src/Net/ProxyProtocol.antt =====
-- The headers of rust_frp_net/src/proxy_protocol.rs, which tell a local service who the visitor is.
pub mod Reading
mod Runs
use rust_frp.Common.{
  ℕ, zero, suc, ◌+◌, ◌*◌, ◌/◌, ◌%◌, Option, none, some, if◌then◌else◌, ltb, List, [], ◌∷◌, ◌++◌,
  length,
}
use rust_frp.Common.Text.{Text, trim, strip_prefix, strip_suffix, eq_ignore_ascii_case}
use rust_frp.Net.WireV2.Frame.{to_be16}

-- The octets of an address.
pub data IpAddr : Type 0 where
  v4 : List ℕ → IpAddr
  v6 : List ℕ → IpAddr

-- How addresses are read and shown: `parse` and `to_string` of `std::net::IpAddr`.
pub record IpText : Type 0 where
  pub parse : Text → Option IpAddr
  pub to_string : IpAddr → Text

abbrev pub v2_signature : List ℕ
v2_signature = 13 ∷ 10 ∷ 13 ∷ 10 ∷ 0 ∷ 13 ∷ 10 ∷ 81 ∷ 85 ∷ 73 ∷ 84 ∷ 10 ∷ []

abbrev pub v2_version : ℕ
v2_version = 32

abbrev pub cmd_proxy : ℕ
cmd_proxy = 1

abbrev pub cmd_local : ℕ
cmd_local = 0

abbrev pub family_inet : ℕ
family_inet = 16

abbrev pub family_inet6 : ℕ
family_inet6 = 32

abbrev pub proto_stream : ℕ
proto_stream = 1

-- The text between brackets, or the text itself.
unfoldable pub unbracketed : Text → Text
unbracketed trimmed = elim (strip_prefix (b'[' ∷ []) trimmed) [
  | none ↦ trimmed
  | some s ↦ elim (strip_suffix (b']' ∷ []) s) [ none ↦ trimmed | some inner ↦ inner ]
]

abbrev pub parse_ip : IpText → Text → Option IpAddr
parse_ip ip text = ip.parse (unbracketed (trim text))

-- A number below 10 ^ `places`, in digits.
abbrev pub decimal : ℕ → ℕ → Text
decimal zero n = []
decimal (suc places) n =
    let before = decimal places (n / 10) in
    if ltb n 10 then (b'0' + n) ∷ [] else before ++ (b'0' + n % 10) ∷ []

abbrev pub proto_text : IpAddr → Text
proto_text (v4 octets) = b'T' ∷ b'C' ∷ b'P' ∷ b'4' ∷ []
proto_text (v6 octets) = b'T' ∷ b'C' ∷ b'P' ∷ b'6' ∷ []

abbrev pub proxy_word : Text
proxy_word = b'P' ∷ b'R' ∷ b'O' ∷ b'X' ∷ b'Y' ∷ b' ' ∷ []

-- The text of the destination, if it is known.
abbrev pub shown_destination : IpText → Option IpAddr → Text
shown_destination ip none = b'0' ∷ b'.' ∷ b'0' ∷ b'.' ∷ b'0' ∷ b'.' ∷ b'0' ∷ []
shown_destination ip (some address) = ip.to_string address

abbrev pub build_v1 : IpText → IpAddr → ℕ → Option IpAddr → ℕ → List ℕ
build_v1 ip src src_port dst dst_port =
    proxy_word
    ++ proto_text src
    ++ b' ' ∷ ip.to_string src
    ++ b' ' ∷ shown_destination ip dst
    ++ b' ' ∷ decimal 5 src_port
    ++ b' ' ∷ decimal 5 dst_port
    ++ 13 ∷ 10 ∷ []

abbrev pub local_v2_header : List ℕ
local_v2_header = v2_signature ++ (v2_version + cmd_local) ∷ 0 ∷ 0 ∷ 0 ∷ []

-- The addresses and the ports, in the order of the header.
abbrev pub v2_payload : List ℕ → List ℕ → ℕ → ℕ → List ℕ
v2_payload src dst src_port dst_port = src ++ (dst ++ (to_be16 src_port ++ to_be16 dst_port))

abbrev pub proxy_v2_header : ℕ → List ℕ → List ℕ
proxy_v2_header family payload =
    v2_signature
    ++ (v2_version + cmd_proxy)
      ∷ (family + proto_stream)
      ∷ (to_be16 (length payload % 65_536) ++ payload)

-- `build_v2` for a destination that is known: two families do not mix.
abbrev pub v2_between : IpAddr → ℕ → IpAddr → ℕ → List ℕ
v2_between (v4 s) src_port (v4 d) dst_port =
    proxy_v2_header family_inet (v2_payload s d src_port dst_port)
v2_between (v6 s) src_port (v6 d) dst_port =
    proxy_v2_header family_inet6 (v2_payload s d src_port dst_port)
v2_between (v4 s) src_port (v6 d) dst_port = local_v2_header
v2_between (v6 s) src_port (v4 d) dst_port = local_v2_header

abbrev pub fallback : Option IpAddr → IpAddr
fallback none = v4 (0 ∷ 0 ∷ 0 ∷ 0 ∷ [])
fallback (some address) = address

abbrev pub build_v2 : IpAddr → ℕ → Option IpAddr → ℕ → List ℕ
build_v2 src src_port dst dst_port = v2_between src src_port (fallback dst) dst_port

abbrev pub v1_name : Text
v1_name = b'v' ∷ b'1' ∷ []

abbrev pub unknown_header : Text → List ℕ
unknown_header version =
    if eq_ignore_ascii_case version v1_name
    then proxy_word ++ b'U' ∷ b'N' ∷ b'K' ∷ b'N' ∷ b'O' ∷ b'W' ∷ b'N' ∷ 13 ∷ 10 ∷ []
    else local_v2_header

-- The header for a visitor whose address was read, or was not.
abbrev pub header_for : IpText → Option IpAddr → ℕ → Option IpAddr → ℕ → Text → List ℕ
header_for ip none src_port dst dst_port version = unknown_header version
header_for ip (some src) src_port dst dst_port version =
    if eq_ignore_ascii_case version v1_name
    then build_v1 ip src src_port dst dst_port
    else build_v2 src src_port dst dst_port

abbrev pub build_proxy_protocol_header : IpText → Text → ℕ → Text → ℕ → Text → List ℕ
build_proxy_protocol_header ip src_ip src_port dst_ip dst_port version =
    header_for ip (parse_ip ip src_ip) src_port (parse_ip ip dst_ip) dst_port version
