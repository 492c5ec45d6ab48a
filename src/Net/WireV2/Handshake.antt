-- ===== src/Net/WireV2/Handshake.antt =====
-- The handshake of rust_frp_net/src/wire_v2.rs, `client_handshake` and `server_handshake`. Each side is
-- a function from what it reads to what it writes and the keys of its stream. The JSON texts are
-- those of the crate `serde_json`, so the two codecs are parameters, as is the text of an error;
-- the random bytes of `crypto_random` are arguments.
use rust_frp.Common.{
  ℕ, Bool, true, false, Result, ok, err, ◌>>=◌, ◌>>◌, guard, ◌==◌, List, [], ◌∷◌, ◌++◌,
}
use rust_frp.Net.WireV2.Frame.{
  WireError, protocol, unexpected_frame, server_rejected, Frame, magic_v2, read_frame, write_frame,
}
use rust_frp.Net.WireV2.Hello.{
  BootstrapInfo, ClientHello, ServerHello, ServerSelection, new_client_hello, new_server_hello,
  validate_server_hello_for_client,
}
use rust_frp.Net.WireV2.Keys.{
  Digests, CryptoContext, client, server, new_crypto_context, control_keys_for_role,
}

-- `serde_json::to_vec` and `from_slice` at one type.
pub record Codec (A : Type 0) : Type 0 where
  pub encode : A → Result WireError (List ℕ)
  pub decode : List ℕ → Result WireError A

pub record Env : Type 0 where
  pub digests : Digests
  pub client_json : Codec ClientHello
  pub server_json : Codec ServerHello
  pub error_text : WireError → List ℕ

abbrev pub frame_type_client_hello : ℕ
frame_type_client_hello = 1

abbrev pub frame_type_server_hello : ℕ
frame_type_server_hello = 2

-- `ServerSelection::default()`
abbrev pub no_selection : ServerSelection
no_selection = record {
  message = record { codec = []; udp_packet_codec = [] };
  crypto = record { algorithm = []; server_random = [] };
}

-- `is_empty`
abbrev pub no_text : List ℕ → Bool
no_text [] = true
no_text (c ∷ cs) = false

-- The keys that the stream of a side reads and writes with.
pub record Keys : Type 0 where
  pub read_key : List ℕ
  pub write_key : List ℕ

module _ (env : Env) where
  -- `Frame::json`
  unfoldable pub hello_frame : {A : Type 0} → Codec A → ℕ → A → Result WireError Frame
  hello_frame codec type_id value = codec.encode value >>= λ payload.
      ok (record { type_id = type_id; flags = 0; payload = payload })

  unfoldable pub new_client_crypto_context : List ℕ → List ℕ → Result WireError CryptoContext
  unfolding validate_server_hello_for_client new_crypto_context
  new_client_crypto_context client_hello server_hello = env.client_json.decode client_hello >>= λ c.
      env.server_json.decode server_hello >>= λ s.
      validate_server_hello_for_client c s
      >> ok (new_crypto_context env.digests s.selected.crypto.algorithm client_hello server_hello)

  -- The first half of `client_handshake`: the frame of the hello, and what is written after the magic.
  unfoldable pub client_offer :
      BootstrapInfo → Result WireError (List ℕ) → Result WireError (Frame × List ℕ)
  unfolding hello_frame new_client_hello write_frame
  client_offer bootstrap random = random >>= λ bytes.
      hello_frame env.client_json frame_type_client_hello (new_client_hello bootstrap bytes)
      >>= λ frame. write_frame frame >>= λ written. ok (frame, magic_v2 ++ written)

  abbrev pub client_keys : List ℕ → CryptoContext → Keys
  client_keys base_key context =
      let (r, w) =
        control_keys_for_role env.digests base_key context.algorithm context.transcript_hash
          client in
      record { read_key = r; write_key = w }

  abbrev pub server_keys : List ℕ → CryptoContext → Keys
  server_keys base_key context =
      let (r, w) =
        control_keys_for_role env.digests base_key context.algorithm context.transcript_hash
          server in
      record { read_key = r; write_key = w }

  -- The second half: what is read after the hello was sent.
  unfoldable pub client_finish : List ℕ → Frame → List ℕ → Result WireError (Keys × List ℕ)
  unfolding read_frame new_client_crypto_context control_keys_for_role
  client_finish base_key hello input = read_frame input >>= λ (reply, rest).
      guard (reply.type_id == frame_type_server_hello) (protocol (unexpected_frame reply.type_id))
      >> env.server_json.decode reply.payload
      >>= λ server_hello.
          guard (no_text server_hello.error) (protocol (server_rejected server_hello.error))
          >> new_client_crypto_context hello.payload reply.payload
          >>= λ context. ok (client_keys base_key context, rest)

  -- A hello of the server as it is sent.
  unfoldable pub reply_frame : ServerHello → Result WireError (Frame × List ℕ)
  unfolding hello_frame write_frame
  reply_frame hello = hello_frame env.server_json frame_type_server_hello hello >>= λ frame.
      write_frame frame >>= λ written. ok (frame, written)

  abbrev pub written_part : Result WireError (Frame × List ℕ) → List ℕ
  written_part (ok (frame, written)) = written
  written_part (err e) = []

  -- What is written when the hello is refused: the reason, if it can be.
  unfoldable pub rejection : WireError → List ℕ
  unfolding reply_frame
  rejection e =
      written_part (reply_frame (record { selected = no_selection; error = env.error_text e }))

  -- The end of `server_handshake`, once the hello of the server stands.
  abbrev pub server_accept :
      List ℕ
      → List ℕ
      → List ℕ
      → List ℕ
      → Result WireError (Frame × List ℕ)
      → List ℕ × Result WireError (Keys × List ℕ)
  server_accept base_key client_hello algorithm rest (err e) = ([], err e)
  server_accept base_key client_hello algorithm rest (ok (frame, written)) =
      let context = new_crypto_context env.digests algorithm client_hello frame.payload in
      (written, ok (server_keys base_key context, rest))

  abbrev pub server_reply :
      List ℕ
      → List ℕ
      → List ℕ
      → Result WireError ServerHello
      → List ℕ × Result WireError (Keys × List ℕ)
  server_reply base_key client_hello rest (err e) = (rejection e, err e)
  server_reply base_key client_hello rest (ok server_hello) =
      server_accept base_key client_hello server_hello.selected.crypto.algorithm rest
        (reply_frame server_hello)

  -- The client's hello out of the first frame.
  unfoldable pub server_read : List ℕ → Result WireError ((Frame × ClientHello) × List ℕ)
  unfolding read_frame
  server_read input = read_frame input >>= λ (frame, rest).
      guard (frame.type_id == frame_type_client_hello) (protocol (unexpected_frame frame.type_id))
      >> env.client_json.decode frame.payload
      >>= λ hello. ok ((frame, hello), rest)

  abbrev pub server_serve :
      List ℕ
      → Result WireError (List ℕ)
      → Result WireError ((Frame × ClientHello) × List ℕ)
      → List ℕ × Result WireError (Keys × List ℕ)
  server_serve base_key random (err e) = ([], err e)
  server_serve base_key random (ok ((frame, hello), rest)) =
      server_reply base_key frame.payload rest (new_server_hello hello random)

  -- What is written, and the keys with the input that is left; the caller has read the magic.
  unfoldable pub server_handshake :
      List ℕ → Result WireError (List ℕ) → List ℕ → List ℕ × Result WireError (Keys × List ℕ)
  unfolding server_read rejection new_server_hello reply_frame new_crypto_context
      control_keys_for_role
  server_handshake base_key random input = server_serve base_key random (server_read input)
