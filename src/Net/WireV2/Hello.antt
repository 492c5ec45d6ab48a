-- ===== src/Net/WireV2/Hello.antt =====
-- The two hellos of rust_frp_net/src/wire_v2.rs: what a client offers, what a server selects, and what
-- each side accepts from the other. A name of a codec or an algorithm is its bytes.
use rust_frp.Common.{
  ℕ, Option, none, some, Bool, false, ◌||◌, Result, ok, err, ◌>>=◌, ◌>>◌, guard, ◌==◌, is_some,
  List, [], ◌∷◌, length, if◌then◌else◌,
}
use rust_frp.Common.Equality.{◌=?◌, bytes_eq}
use rust_frp.Net.WireV2.Frame.{
  WireError, protocol, unsupported_message_codec, bad_client_random, no_supported_algorithm,
  unsupported_selected_codec, unsupported_udp_codec, udp_codec_not_advertised, unknown_algorithm,
  algorithm_not_advertised, bad_server_random,
}

abbrev pub json_codec : List ℕ
json_codec = b'j' ∷ b's' ∷ b'o' ∷ b'n' ∷ []

abbrev pub udp_binary : List ℕ
udp_binary = b'b' ∷ b'i' ∷ b'n' ∷ b'a' ∷ b'r' ∷ b'y' ∷ b'-' ∷ b'v' ∷ b'1' ∷ []

abbrev pub aes_256_gcm : List ℕ
aes_256_gcm = b'a' ∷ b'e' ∷ b's' ∷ b'-' ∷ b'2' ∷ b'5' ∷ b'6' ∷ b'-' ∷ b'g' ∷ b'c' ∷ b'm' ∷ []

abbrev pub supported_algorithms : List (List ℕ)
supported_algorithms = aes_256_gcm ∷ []

abbrev pub crypto_random_size : ℕ
crypto_random_size = 32

pub record BootstrapInfo : Type 0 where
  pub transport : List ℕ
  pub tls : Bool
  pub tcp_mux : Bool

pub record MessageCapabilities : Type 0 where
  pub codecs : List (List ℕ)
  pub udp_packet_codecs : List (List ℕ)

pub record CryptoCapabilities : Type 0 where
  pub algorithms : List (List ℕ)
  pub client_random : List ℕ

pub record ClientCapabilities : Type 0 where
  pub message : MessageCapabilities
  pub crypto : CryptoCapabilities

pub record ClientHello : Type 0 where
  pub bootstrap : BootstrapInfo
  pub capabilities : ClientCapabilities

pub record MessageSelection : Type 0 where
  pub codec : List ℕ
  pub udp_packet_codec : List ℕ

pub record CryptoSelection : Type 0 where
  pub algorithm : List ℕ
  pub server_random : List ℕ

pub record ServerSelection : Type 0 where
  pub message : MessageSelection
  pub crypto : CryptoSelection

pub record ServerHello : Type 0 where
  pub selected : ServerSelection
  pub error : List ℕ

-- `contains` and `iter().any(|c| c == …)`
unfoldable pub contains : List ℕ → List (List ℕ) → Bool
contains name [] = false
contains name (c ∷ cs) = (c =? name) || contains name cs

unfoldable pub is_supported_aead_algorithm : List ℕ → Bool
unfolding contains
is_supported_aead_algorithm name = contains name supported_algorithms

-- The first name of the client's list that is supported.
unfoldable pub select_aead_algorithm : List (List ℕ) → Option (List ℕ)
unfolding contains
select_aead_algorithm [] = none
select_aead_algorithm (a ∷ rest) =
    if contains a supported_algorithms then some a else select_aead_algorithm rest

unfoldable pub select_udp_packet_codec : List (List ℕ) → List ℕ
unfolding contains
select_udp_packet_codec codecs = if contains udp_binary codecs then udp_binary else []

unfoldable pub new_client_hello : BootstrapInfo → List ℕ → ClientHello
new_client_hello bootstrap random = record {
  bootstrap = bootstrap;
  capabilities = record {
    message = record { codecs = json_codec ∷ []; udp_packet_codecs = udp_binary ∷ [] };
    crypto = record { algorithms = supported_algorithms; client_random = random };
  };
}

unfoldable pub validate_crypto_capabilities : CryptoCapabilities → Result WireError (Unit {0})
unfolding select_aead_algorithm
validate_crypto_capabilities cap =
    guard (length cap.client_random == crypto_random_size)
      (protocol (bad_client_random (length cap.client_random)))
    >> guard (is_some (select_aead_algorithm cap.algorithms)) (protocol no_supported_algorithm)

unfoldable pub validate_client_hello : ClientHello → Result WireError (Unit {0})
unfolding contains validate_crypto_capabilities
validate_client_hello hello =
    guard (contains json_codec hello.capabilities.message.codecs)
      (protocol unsupported_message_codec)
    >> validate_crypto_capabilities hello.capabilities.crypto

-- `ok_or_else`
abbrev pub selected_algorithm : Option (List ℕ) → Result WireError (List ℕ)
selected_algorithm none = err (protocol no_supported_algorithm)
selected_algorithm (some a) = ok a

abbrev pub hello_selecting : ClientHello → List ℕ → List ℕ → ServerHello
hello_selecting hello random algorithm = record {
  selected = record {
    message = record {
      codec = json_codec;
      udp_packet_codec = select_udp_packet_codec hello.capabilities.message.udp_packet_codecs;
    };
    crypto = record { algorithm = algorithm; server_random = random };
  };
  error = [];
}

-- `random` is what `crypto_random` gives, if it does.
unfoldable pub new_server_hello :
    ClientHello → Result WireError (List ℕ) → Result WireError ServerHello
unfolding validate_client_hello select_aead_algorithm select_udp_packet_codec
new_server_hello hello random =
    validate_client_hello hello
    >> selected_algorithm (select_aead_algorithm hello.capabilities.crypto.algorithms)
    >>= λ algorithm. random >>= λ bytes. ok (hello_selecting hello bytes algorithm)

-- The test of the selected UDP codec, which may be absent.
abbrev pub validate_udp_codec : ClientHello → List ℕ → Result WireError (Unit {0})
validate_udp_codec client [] = ok tt
validate_udp_codec client (c ∷ cs) =
    guard ((c ∷ cs) =? udp_binary) (protocol (unsupported_udp_codec (c ∷ cs)))
    >> guard (contains (c ∷ cs) client.capabilities.message.udp_packet_codecs)
        (protocol (udp_codec_not_advertised (c ∷ cs)))

unfoldable pub validate_server_hello_for_client :
    ClientHello → ServerHello → Result WireError (Unit {0})
unfolding contains is_supported_aead_algorithm
validate_server_hello_for_client client server =
    guard (server.selected.message.codec =? json_codec)
      (protocol (unsupported_selected_codec server.selected.message.codec))
    >> validate_udp_codec client server.selected.message.udp_packet_codec
    >> guard (is_supported_aead_algorithm server.selected.crypto.algorithm)
        (protocol (unknown_algorithm server.selected.crypto.algorithm))
    >> guard (contains server.selected.crypto.algorithm client.capabilities.crypto.algorithms)
        (protocol (algorithm_not_advertised server.selected.crypto.algorithm))
    >> guard (length server.selected.crypto.server_random == crypto_random_size)
        (protocol (bad_server_random (length server.selected.crypto.server_random)))
