-- ===== src/Net/ProxyProtocol/Reading.antt =====
-- The binary header of rust_frp_net/src/proxy_protocol.rs, read as the PROXY protocol says.
use rust_frp.Common.{
  ℕ, ◌+◌, ◌/◌, ◌%◌, ◌<◌, true, false, ◌&&◌, Option, none, some, if◌then◌else◌, leb, ◌==◌, ◌≡◌, refl,
  sym, ap, ◌∙◌, List, [], ◌∷◌, ◌++◌, length, take, drop, take-append, drop-append, length-append,
  arith,
}
use rust_frp.Common.Text.{Text, trim, strip_prefix, eq_ignore_ascii_case}
use rust_frp.Net.WireV2.Frame.{to_be16, from_be16}
use rust_frp.Net.WireV2.RoundTrip.{from_be16-to_be16}
use rust_frp.Net.ProxyProtocol.{
  IpAddr, v4, v6, IpText, v2_signature, local_v2_header, parse_ip, v2_payload, proxy_v2_header,
  v2_between, build_v2, unbracketed, fallback, header_for, v1_name, build_proxy_protocol_header,
}

-- What a service is told of a connection.
pub data Announced : Type 0 where
  no_visitor : Announced
  visitor : IpAddr → ℕ → IpAddr → ℕ → Announced

abbrev ports_after : (List ℕ → IpAddr) → List ℕ → List ℕ → List ℕ → Option Announced
ports_after make src dst (s1 ∷ s0 ∷ d1 ∷ d0 ∷ []) =
    some (visitor (make src) (from_be16 s1 s0) (make dst) (from_be16 d1 d0))
ports_after make src dst others = none

-- The address block of a command, by its family.
abbrev addresses : ℕ → (List ℕ → IpAddr) → List ℕ → Option Announced
addresses n make body = ports_after make (take n body) (take n (drop n body)) (drop n (drop n body))

abbrev told : ℕ → ℕ → List ℕ → Option Announced
told command family body =
    if command == 32
    then some no_visitor
    else if (command == 33) && (family == 17)
    then addresses 4 v4 body
    else if (command == 33) && (family == 33)
    then addresses 16 v6 body
    else none

abbrev with_rest : Option Announced → List ℕ → Option (Announced × List ℕ)
with_rest none rest = none
with_rest (some a) rest = some (a, rest)

-- A command with a block of `n` bytes.
abbrev read_block : ℕ → ℕ → ℕ → List ℕ → Option (Announced × List ℕ)
read_block command family n bytes =
    if leb n (length bytes)
    then with_rest (told command family (take n bytes)) (drop n bytes)
    else none

abbrev read_rest : List ℕ → Option (Announced × List ℕ)
read_rest (command ∷ family ∷ n1 ∷ n0 ∷ rest) = read_block command family (from_be16 n1 n0) rest
read_rest short = none

-- A header at the front of a stream, and what follows it.
unfoldable pub read_header : List ℕ → Option (Announced × List ℕ)
unfolding strip_prefix
read_header bytes = elim (strip_prefix v2_signature bytes) [
  | none ↦ none
  | some rest ↦ read_rest rest
]

-- What is to be announced: the visitor, unless its address is not known or is of another family than
-- the destination, which is 0.0.0.0 where it is not known.
abbrev pub announced : Option IpAddr → ℕ → Option IpAddr → ℕ → Announced
announced (some (v4 s)) sp (some (v4 d)) dp = visitor (v4 s) sp (v4 d) dp
announced (some (v4 s)) sp none dp = visitor (v4 s) sp (v4 (0 ∷ 0 ∷ 0 ∷ 0 ∷ [])) dp
announced (some (v6 s)) sp (some (v6 d)) dp = visitor (v6 s) sp (v6 d) dp
announced src sp dst dp = no_visitor

abbrev pub IsAddress : IpAddr → Type 0
IsAddress (v4 octets) = length octets ≡ 4
IsAddress (v6 octets) = length octets ≡ 16

-- An address that is read has the octets of its family.
abbrev pub GivesAddresses : IpText → Type 0
GivesAddresses ip = (text : Text) (a : IpAddr) → ip.parse text ≡ some a → IsAddress a

ports_of :
    (make : List ℕ → IpAddr) (s d : List ℕ) (sp dp : ℕ)
    → sp < 65_536
    → dp < 65_536
    → ports_after make s d (to_be16 sp ++ to_be16 dp) ≡ some (visitor (make s) sp (make d) dp)
ports_of make s d sp dp small_s small_d =
    ap (λ n. some (visitor (make s) n (make d) (from_be16 (dp / 256 % 256) (dp % 256))))
      (from_be16-to_be16 sp small_s)
    ∙ ap (λ n. some (visitor (make s) sp (make d) n)) (from_be16-to_be16 dp small_d)

addresses-v2_payload :
    (make : List ℕ → IpAddr) (s d : List ℕ) (sp dp n : ℕ)
    → length s ≡ n
    → length d ≡ n
    → sp < 65_536
    → dp < 65_536
    → addresses n make (v2_payload s d sp dp) ≡ some (visitor (make s) sp (make d) dp)
addresses-v2_payload make s d sp dp n s_long d_long small_s small_d =
    let ports = to_be16 sp ++ to_be16 dp in
    let body = s ++ (d ++ ports) in
    let front : take n body ≡ s = ap (λ k. take k body) (sym s_long) ∙ take-append s (d ++ ports) in
    let after : drop n body ≡ d ++ ports =
      ap (λ k. drop k body) (sym s_long) ∙ drop-append s (d ++ ports) in
    let middle : take n (drop n body) ≡ d =
      ap (take n) after ∙ ap (λ k. take k (d ++ ports)) (sym d_long) ∙ take-append d ports in
    let end : drop n (drop n body) ≡ ports =
      ap (drop n) after ∙ ap (λ k. drop k (d ++ ports)) (sym d_long) ∙ drop-append d ports in
    ap (λ x. ports_after make x (take n (drop n body)) (drop n (drop n body))) front
    ∙ ap (λ x. ports_after make s x (drop n (drop n body))) middle
    ∙ ap (ports_after make s d) end
    ∙ ports_of make s d sp dp small_s small_d

read_block-append :
    (command family n : ℕ) (block rest : List ℕ) (a : Announced)
    → n ≡ length block
    → told command family block ≡ some a
    → read_block command family n (block ++ rest) ≡ some (a, rest)
read_block-append command family n block rest a same said =
    let bytes = block ++ rest in
    let fits : leb n (length bytes) ≡ true = let whole = length-append block rest in ground arith in
    ap (λ b. if b then with_rest (told command family (take n bytes)) (drop n bytes) else none) fits
    ∙ ap (λ k. with_rest (told command family (take k bytes)) (drop k bytes)) same
    ∙ ap (λ x. with_rest (told command family x) (drop (length block) bytes))
        (take-append block rest)
    ∙ ap (with_rest (told command family block)) (drop-append block rest)
    ∙ ap (λ x. with_rest x rest) said

-- A header with its length in front is read up to that length.
read_header-proxy_v2_header :
    (family : ℕ) (payload rest : List ℕ) (a : Announced)
    → length payload < 65_536
    → told 33 (family + 1) payload ≡ some a
    → read_header (proxy_v2_header family payload ++ rest) ≡ some (a, rest)
unfolding read_header strip_prefix
read_header-proxy_v2_header family payload rest a small said =
    let n = length payload % 65_536 in
    read_block-append 33 (family + 1) (from_be16 (n / 256 % 256) (n % 256)) payload rest a
      (omega arith) said

read_header-local_v2_header :
    (rest : List ℕ) → read_header (local_v2_header ++ rest) ≡ some (no_visitor, rest)
unfolding read_header strip_prefix
read_header-local_v2_header rest = read_block-append 32 0 0 [] rest no_visitor refl refl

length-v2_payload :
    (s d : List ℕ) (sp dp : ℕ) → length (v2_payload s d sp dp) ≡ length s + length d + 4
length-v2_payload s d sp dp =
    let ports = to_be16 sp ++ to_be16 dp in
    omega (arith, length-append s (d ++ ports), length-append d ports)

read_header-v2_between :
    (s d : IpAddr) (sp dp : ℕ) (rest : List ℕ)
    → IsAddress s
    → IsAddress d
    → sp < 65_536
    → dp < 65_536
    → read_header (v2_between s sp d dp ++ rest) ≡ some (announced (some s) sp (some d) dp, rest)
read_header-v2_between (v4 s) (v4 d) sp dp rest s4 d4 small_s small_d =
    read_header-proxy_v2_header 16 (v2_payload s d sp dp) rest (visitor (v4 s) sp (v4 d) dp)
      (omega (arith, length-v2_payload s d sp dp))
      (addresses-v2_payload v4 s d sp dp 4 s4 d4 small_s small_d)
read_header-v2_between (v6 s) (v6 d) sp dp rest s6 d6 small_s small_d =
    read_header-proxy_v2_header 32 (v2_payload s d sp dp) rest (visitor (v6 s) sp (v6 d) dp)
      (omega (arith, length-v2_payload s d sp dp))
      (addresses-v2_payload v6 s d sp dp 16 s6 d6 small_s small_d)
read_header-v2_between (v4 s) (v6 d) sp dp rest h k small_s small_d =
    read_header-local_v2_header rest
read_header-v2_between (v6 s) (v4 d) sp dp rest h k small_s small_d =
    read_header-local_v2_header rest

Given : Option IpAddr → Type 0
Given o = (a : IpAddr) → o ≡ some a → IsAddress a

read_header-build_v2 :
    (src : IpAddr) (dst : Option IpAddr) (sp dp : ℕ) (rest : List ℕ)
    → IsAddress src
    → Given dst
    → sp < 65_536
    → dp < 65_536
    → read_header (build_v2 src sp dst dp ++ rest) ≡ some (announced (some src) sp dst dp, rest)
unfolding Given
read_header-build_v2 src (some d) sp dp rest given_s given_d small_s small_d =
    read_header-v2_between src d sp dp rest given_s (given_d d refl) small_s small_d
read_header-build_v2 (v4 s) none sp dp rest given_s given_d small_s small_d =
    read_header-v2_between (v4 s) (fallback none) sp dp rest given_s refl small_s small_d
read_header-build_v2 (v6 s) none sp dp rest given_s given_d small_s small_d =
    read_header-local_v2_header rest

read_header-header_for :
    (ip : IpText) (src dst : Option IpAddr) (sp dp : ℕ) (version : Text) (rest : List ℕ)
    → Given src
    → Given dst
    → eq_ignore_ascii_case version v1_name ≡ false
    → sp < 65_536
    → dp < 65_536
    → read_header (header_for ip src sp dst dp version ++ rest)
      ≡ some (announced src sp dst dp, rest)
unfolding Given
read_header-header_for ip none dst sp dp version rest given_s given_d other small_s small_d =
    rw other (read_header-local_v2_header rest)
read_header-header_for ip (some src) dst sp dp version rest given_s given_d other small_s small_d =
    rw other (read_header-build_v2 src dst sp dp rest (given_s src refl) given_d small_s small_d)

-- If addresses are read with the octets of their family and the version is not v1, a service that
-- reads the header by the rules of version 2 is told the visitor's address and both ports, with the
-- destination or 0.0.0.0 for one that is not known, and finds the stream behind the header
-- untouched. It is told of no visitor if the visitor's address is not known or is not of the
-- destination's family; so the address of a visitor with IPv6 is lost if the destination is not known.
pub read_header-build_proxy_protocol_header :
    (ip : IpText) (src_ip dst_ip version : Text) (sp dp : ℕ) (rest : List ℕ)
    → GivesAddresses ip
    → eq_ignore_ascii_case version v1_name ≡ false
    → sp < 65_536
    → dp < 65_536
    → read_header (build_proxy_protocol_header ip src_ip sp dst_ip dp version ++ rest)
      ≡ some (announced (parse_ip ip src_ip) sp (parse_ip ip dst_ip) dp, rest)
unfolding Given
read_header-build_proxy_protocol_header ip src_ip dst_ip version sp dp rest gives other small_s
      small_d =
    read_header-header_for ip (parse_ip ip src_ip) (parse_ip ip dst_ip) sp dp version rest
      (gives (unbracketed (trim src_ip))) (gives (unbracketed (trim dst_ip))) other small_s small_d
