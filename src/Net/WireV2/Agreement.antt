-- ===== src/Net/WireV2/Agreement.antt =====
-- The two sides of the handshake in rust_frp_net/src/wire_v2.rs against each other.
use rust_frp.Common.{ℕ, ◌≤◌, true, ok, ◌≡◌, refl, List, ◌++◌, length, arith}
use rust_frp.Common.Equality.{bytes_eq, bytes_beq}
use rust_frp.Net.WireV2.Frame.{Frame, max_payload, magic_v2, read_exact, check_magic}
use rust_frp.Net.WireV2.Hello.{
  BootstrapInfo, ServerHello, aes_256_gcm, crypto_random_size, contains,
  is_supported_aead_algorithm, select_aead_algorithm, select_udp_packet_codec, new_client_hello,
  validate_crypto_capabilities, validate_client_hello, hello_selecting, new_server_hello,
  validate_server_hello_for_client,
}
use rust_frp.Net.WireV2.Keys.{CryptoContext, new_crypto_context, control_keys_for_role}
use rust_frp.Net.WireV2.RoundTrip.{frame_bytes, write_frame-frame_bytes, read_frame-frame_bytes}
use rust_frp.Net.WireV2.Handshake.{
  Codec, Env, Keys, frame_type_client_hello, frame_type_server_hello, hello_frame,
  new_client_crypto_context, client_offer, client_finish, client_keys, server_keys, reply_frame,
  server_read, server_handshake,
}

-- The server's hello for an honest client.
abbrev pub honest_reply : BootstrapInfo → List ℕ → List ℕ → ServerHello
honest_reply b client_random server_random =
    hello_selecting (new_client_hello b client_random) server_random aes_256_gcm

new_server_hello-new_client_hello :
    (b : BootstrapInfo) (cr sr : List ℕ)
    → length cr ≡ crypto_random_size
    → new_server_hello (new_client_hello b cr) (ok sr) ≡ ok (honest_reply b cr sr)
unfolding new_server_hello validate_client_hello validate_crypto_capabilities contains
    select_aead_algorithm new_client_hello bytes_beq
new_server_hello-new_client_hello b cr sr size = rw size refl

validate-honest_reply :
    (b : BootstrapInfo) (cr sr : List ℕ)
    → length sr ≡ crypto_random_size
    → validate_server_hello_for_client (new_client_hello b cr) (honest_reply b cr sr) ≡ ok tt
unfolding validate_server_hello_for_client contains is_supported_aead_algorithm new_client_hello
    select_udp_packet_codec bytes_beq
validate-honest_reply b cr sr size = rw size refl

-- The value `a` travels as the text `p`, which fits into a frame: serde's derived implementations read
-- back what they wrote.
abbrev pub Travels : {A : Type 0} → Codec A → A → List ℕ → Type 0
Travels c a p = (c.encode a ≡ ok p) × (c.decode p ≡ ok a) × (length p ≤ max_payload)

module _ (env : Env) where
  -- A frame of these sizes is written and read.
  abbrev framed : ℕ → List ℕ → Frame
  framed type_id payload = record { type_id = type_id; flags = 0; payload = payload }

  client_offer-ok :
      (b : BootstrapInfo) (cr p : List ℕ)
      → env.client_json.encode (new_client_hello b cr) ≡ ok p
      → length p ≤ max_payload
      → client_offer env b (ok cr)
        ≡ ok (
          framed frame_type_client_hello p,
          magic_v2 ++ frame_bytes (framed frame_type_client_hello p),
        )
  unfolding client_offer hello_frame
  client_offer-ok b cr p encoded small =
      rw (encoded, write_frame-frame_bytes (framed frame_type_client_hello p) refl small) refl

  server_handshake-ok :
      (base_key : List ℕ) (b : BootstrapInfo) (cr sr p q rest : List ℕ)
      → length cr ≡ crypto_random_size
      → Travels env.client_json (new_client_hello b cr) p
      → Travels env.server_json (honest_reply b cr sr) q
      → server_handshake env base_key
          (ok sr)
          (frame_bytes (framed frame_type_client_hello p) ++ rest)
        ≡ (
          frame_bytes (framed frame_type_server_hello q),
          ok (server_keys env base_key (new_crypto_context env.digests aes_256_gcm p q), rest),
        )
  unfolding server_handshake server_read reply_frame hello_frame
  server_handshake-ok base_key b cr sr p q rest size (encoded, decoded, small)
        (replied, decoded', small') =
      rw
        (
          read_frame-frame_bytes frame_type_client_hello p rest (omega arith) small,
          decoded,
          new_server_hello-new_client_hello b cr sr size,
          replied,
          write_frame-frame_bytes (framed frame_type_server_hello q) refl small',
        )
        refl

  client_finish-ok :
      (base_key : List ℕ) (b : BootstrapInfo) (cr sr p q rest : List ℕ)
      → length sr ≡ crypto_random_size
      → Travels env.client_json (new_client_hello b cr) p
      → Travels env.server_json (honest_reply b cr sr) q
      → client_finish env base_key
          (framed frame_type_client_hello p)
          (frame_bytes (framed frame_type_server_hello q) ++ rest)
        ≡ ok (client_keys env base_key (new_crypto_context env.digests aes_256_gcm p q), rest)
  unfolding client_finish new_client_crypto_context
  client_finish-ok base_key b cr sr p q rest size (encoded, decoded, small)
        (replied, decoded', small') =
      rw
        (
          read_frame-frame_bytes frame_type_server_hello q rest (omega arith) small',
          decoded',
          decoded,
          validate-honest_reply b cr sr size,
        )
        refl

  -- The read key of each side is the write key of the other.
  abbrev pub Paired : Keys → Keys → Type 0
  Paired a b = (a.read_key ≡ b.write_key) × (a.write_key ≡ b.read_key)

  keys-Paired :
      (base_key : List ℕ) (context : CryptoContext)
      → Paired (client_keys env base_key context) (server_keys env base_key context)
  unfolding control_keys_for_role
  keys-Paired base_key context = (refl, refl)

  check_magic-append :
      (rest : List ℕ) → check_magic (magic_v2 ++ rest) ≡ ok ((magic_v2, true), rest)
  unfolding check_magic read_exact bytes_beq
  check_magic-append rest = refl

  -- What a whole exchange gives: the client's bytes, the server's, and the keys of both.
  abbrev pub Exchange : List ℕ → BootstrapInfo → List ℕ → List ℕ → List ℕ → List ℕ → Type 0
  Exchange base_key b cr sr early late =
      (frame : Frame) × (offer : List ℕ) × (reply : List ℕ) × (mine : Keys) × (theirs : Keys)
      × (client_offer env b (ok cr) ≡ ok (frame, magic_v2 ++ offer))
      × (check_magic (magic_v2 ++ offer ++ early) ≡ ok ((magic_v2, true), offer ++ early))
      × (server_handshake env base_key (ok sr) (offer ++ early) ≡ (reply, ok (theirs, early)))
      × (client_finish env base_key frame (reply ++ late) ≡ ok (mine, late))
      × Paired mine theirs

  -- An undisturbed handshake succeeds on both sides: given 32 random bytes on each side and hellos
  -- that travel as texts of at most 64 KiB, the client's offer is accepted, its magic is recognised, the
  -- server's answer is accepted, each side leaves what follows unread, and the key that one side
  -- reads with is the key that the other writes with.
  pub client_finish-server_handshake :
      (base_key : List ℕ) (b : BootstrapInfo) (cr sr p q early late : List ℕ)
      → length cr ≡ crypto_random_size
      → length sr ≡ crypto_random_size
      → Travels env.client_json (new_client_hello b cr) p
      → Travels env.server_json (honest_reply b cr sr) q
      → Exchange base_key b cr sr early late
  client_finish-server_handshake base_key b cr sr p q early late size size' client_text
        server_text =
      (
        framed frame_type_client_hello p,
        frame_bytes (framed frame_type_client_hello p),
        frame_bytes (framed frame_type_server_hello q),
        client_keys env base_key (new_crypto_context env.digests aes_256_gcm p q),
        server_keys env base_key (new_crypto_context env.digests aes_256_gcm p q),
        client_offer-ok b cr p client_text.0 client_text.2,
        check_magic-append (frame_bytes (framed frame_type_client_hello p) ++ early),
        server_handshake-ok base_key b cr sr p q early size client_text server_text,
        client_finish-ok base_key b cr sr p q late size' client_text server_text,
        keys-Paired base_key (new_crypto_context env.digests aes_256_gcm p q),
      )
