-- ===== src/Net/WireV2/Runs.antt =====
-- The wire protocol of rust_frp_net/src/wire_v2.rs at concrete inputs. The text of a hello is here its
-- random part, and the digests are of no cryptographic value.
use rust_frp.Common.{
  ℕ, ◌+◌, ◌≡◌, ◌↔◌, refl, true, false, ok, err, List, [], ◌∷◌, ◌++◌, length, replicate, arith,
}
use rust_frp.Common.Equality.{bytes_beq}
use rust_frp.Net.WireV2.Frame.{
  protocol, payload_too_long, unsupported_flags, Frame, read_payload, read_frame, write_frame,
}
use rust_frp.Net.WireV2.Hello.{
  BootstrapInfo, aes_256_gcm, contains, is_supported_aead_algorithm, select_aead_algorithm,
  select_udp_packet_codec, validate_crypto_capabilities, validate_client_hello, new_client_hello,
  new_server_hello, validate_server_hello_for_client,
}
use rust_frp.Net.WireV2.Keys.{client, control_keys_for_role}
use rust_frp.Net.WireV2.Handshake.{Env}
use rust_frp.Net.WireV2.RoundTrip.{read_frame-write_frame}
use rust_frp.Net.WireV2.Agreement.{Exchange, honest_reply, client_finish-server_handshake}
use rust_frp.Net.WireV2.Negotiation.{Acceptable, validate_server_hello_for_client-Acceptable}
use rust_frp.Net.WireV2.Derivation.{length-control_keys_for_role, transcript_injective}

abbrev boot : BootstrapInfo
boot = record { transport = b't' ∷ []; tls = false; tcp_mux = true }

abbrev client_random : List ℕ
client_random = replicate 32 7

abbrev server_random : List ℕ
server_random = replicate 32 9

abbrev env : Env
env = record {
  digests = record {
    sha256 = λ text. replicate 32 (length text);
    hmac_sha256 = λ key text. replicate 32 (length key + length text);
  };
  client_json = record {
    encode = λ hello. ok hello.capabilities.crypto.client_random;
    decode = λ text. ok (new_client_hello boot text);
  };
  server_json = record {
    encode = λ hello. ok hello.selected.crypto.server_random;
    decode = λ text. ok (honest_reply boot client_random text);
  };
  error_text = λ e. b'e' ∷ [];
}

abbrev small_frame : Frame
small_frame = record { type_id = 16; flags = 0; payload = 1 ∷ 2 ∷ [] }

refuses :
    (write_frame (record small_frame { flags = 4 }) ≡ err (protocol (unsupported_flags 4)))
    × (read_frame (0 ∷ 16 ∷ 0 ∷ 0 ∷ 0 ∷ 1 ∷ 0 ∷ 1 ∷ []) ≡ err (protocol (payload_too_long 65_537)))
unfolding write_frame read_frame read_payload
refuses = (refl, refl)

read_frame-write_frame_example :
    read_frame ((0 ∷ 16 ∷ 0 ∷ 0 ∷ 0 ∷ 0 ∷ 0 ∷ 2 ∷ 1 ∷ 2 ∷ []) ++ 5 ∷ []) ≡ ok (small_frame, 5 ∷ [])
read_frame-write_frame_example =
    read_frame-write_frame small_frame (0 ∷ 16 ∷ 0 ∷ 0 ∷ 0 ∷ 0 ∷ 0 ∷ 2 ∷ 1 ∷ 2 ∷ []) (5 ∷ [])
      (omega arith) (unfold write_frame in refl)

client_finish-server_handshake_example :
    Exchange env (1 ∷ 2 ∷ []) boot client_random server_random (4 ∷ []) (5 ∷ [])
client_finish-server_handshake_example =
    client_finish-server_handshake env (1 ∷ 2 ∷ []) boot client_random server_random client_random
      server_random (4 ∷ []) (5 ∷ []) refl refl
      (unfold new_client_hello in (refl, refl, omega arith)) (refl, refl, omega arith)

accepted :
    validate_server_hello_for_client
      (new_client_hello boot client_random)
      (honest_reply boot client_random server_random)
    ≡ ok tt
unfolding validate_server_hello_for_client contains is_supported_aead_algorithm new_client_hello
    select_udp_packet_codec bytes_beq
accepted = refl

answered :
    new_server_hello (new_client_hello boot client_random) (ok server_random)
    ≡ ok (honest_reply boot client_random server_random)
unfolding new_server_hello validate_client_hello validate_crypto_capabilities contains
    select_aead_algorithm new_client_hello bytes_beq
answered = refl

validate_server_hello_for_client-Acceptable_example :
    let c = new_client_hello boot client_random in
    let s = honest_reply boot client_random server_random in
    (validate_server_hello_for_client c s ≡ ok tt) ↔ Acceptable c s
validate_server_hello_for_client-Acceptable_example =
    validate_server_hello_for_client-Acceptable (new_client_hello boot client_random)
      (honest_reply boot client_random server_random)

length-control_keys_for_role_example :
    let (r, w) = control_keys_for_role env.digests (1 ∷ []) aes_256_gcm (2 ∷ []) client in
    (length r ≡ 32) × (length w ≡ 32)
length-control_keys_for_role_example =
    length-control_keys_for_role env.digests (1 ∷ []) aes_256_gcm (2 ∷ []) client
      (λ key text. omega arith)

transcript_injective_example :
    (◌≡◌ {A = List ℕ} (1 ∷ []) (1 ∷ [])) × (◌≡◌ {A = List ℕ} (2 ∷ 3 ∷ []) (2 ∷ 3 ∷ []))
transcript_injective_example =
    transcript_injective (1 ∷ []) (2 ∷ 3 ∷ []) (1 ∷ []) (2 ∷ 3 ∷ []) (omega arith) (omega arith)
      (omega arith) (omega arith) refl
