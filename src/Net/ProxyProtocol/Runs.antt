-- ===== src/Net/ProxyProtocol/Runs.antt =====
-- The headers of rust_frp_net/src/proxy_protocol.rs at concrete inputs, with a reader that knows two
-- addresses.
use rust_frp.Common.{
  Option, ◌≡◌, refl, ap, subst, true, false, Bool, some, none, [], ◌∷◌, ◌++◌, arith,
}
use rust_frp.Common.Equality.{◌=?◌, bytes_eq, bytes_beq}
use rust_frp.Common.Text.{trim, eq_ignore_ascii_case, strip_prefix, strip_suffix}
use rust_frp.Net.ProxyProtocol.{
  IpAddr, v4, v6, IpText, unbracketed, parse_ip, decimal, fallback, build_proxy_protocol_header,
}
use rust_frp.Net.ProxyProtocol.Reading.{
  IsAddress, GivesAddresses, visitor, read_header, read_header-build_proxy_protocol_header,
}

abbrev loopback : IpAddr
loopback = v4 (127 ∷ 0 ∷ 0 ∷ 1 ∷ [])

abbrev loopback6 : IpAddr
loopback6 = v6 (0 ∷ 0 ∷ 0 ∷ 0 ∷ 0 ∷ 0 ∷ 0 ∷ 0 ∷ 0 ∷ 0 ∷ 0 ∷ 0 ∷ 0 ∷ 0 ∷ 0 ∷ 1 ∷ [])

abbrev known_ip : Bool → Bool → Option IpAddr
known_ip true other = some loopback
known_ip false true = some loopback6
known_ip false false = none

abbrev known : IpText
known = record {
  parse = λ text. known_ip (text =? (b'l' ∷ [])) (text =? (b':' ∷ b'1' ∷ []));
  to_string = λ a. b'a' ∷ [];
}

known_ip-IsAddress : (b c : Bool) (a : IpAddr) → known_ip b c ≡ some a → IsAddress a
known_ip-IsAddress true c a found = subst IsAddress (ap fallback found) refl
known_ip-IsAddress false true a found = subst IsAddress (ap fallback found) refl
known_ip-IsAddress false false a found = absurd (ground arith)

known-GivesAddresses : GivesAddresses known
known-GivesAddresses text a =
    known_ip-IsAddress (text =? (b'l' ∷ [])) (text =? (b':' ∷ b'1' ∷ [])) a

some_headers :
    (parse_ip known (b' ' ∷ b'[' ∷ b':' ∷ b'1' ∷ b']' ∷ []) ≡ some loopback6)
    × (decimal 5 65_535 ≡ b'6' ∷ b'5' ∷ b'5' ∷ b'3' ∷ b'5' ∷ [])
    × (decimal 5 0 ≡ b'0' ∷ [])
unfolding unbracketed strip_suffix bytes_beq strip_prefix trim
some_headers = (refl, refl, refl)

read_header-build_proxy_protocol_header_example :
    read_header (
      build_proxy_protocol_header known (b'l' ∷ []) 80 (b'x' ∷ []) 443 (b'v' ∷ b'2' ∷ []) ++ 7 ∷ [])
    ≡ some (visitor loopback 80 (v4 (0 ∷ 0 ∷ 0 ∷ 0 ∷ [])) 443, 7 ∷ [])
unfolding unbracketed trim strip_suffix eq_ignore_ascii_case bytes_beq strip_prefix
read_header-build_proxy_protocol_header_example =
    read_header-build_proxy_protocol_header known (b'l' ∷ []) (b'x' ∷ []) (b'v' ∷ b'2' ∷ []) 80 443
      (7 ∷ []) known-GivesAddresses refl (omega arith) (omega arith)
