-- ===== src/Net/WireV2/Frame.antt =====
-- The frames of rust_frp_net/src/wire_v2.rs and of the bytes they travel as: a reader is the list of
-- the bytes that are still to come, a writer the list of the bytes it was given.
use rust_frp.Common.{
  ℕ, zero, suc, ◌+◌, ◌*◌, ◌/◌, ◌%◌, Bool, not, Result, ok, err, ◌>>=◌, ◌>>◌, guard, ltb, ◌==◌, List,
  [], ◌∷◌, ◌++◌, length,
}
use rust_frp.Common.Equality.{◌=?◌, bytes_eq}

-- What a message of `WireError::Protocol` says.
pub data ProtocolError : Type 0 where
  unsupported_flags : ℕ → ProtocolError
  payload_too_long : ℕ → ProtocolError
  unsupported_message_codec : ProtocolError
  bad_client_random : ℕ → ProtocolError
  no_supported_algorithm : ProtocolError
  unsupported_selected_codec : List ℕ → ProtocolError
  unsupported_udp_codec : List ℕ → ProtocolError
  udp_codec_not_advertised : List ℕ → ProtocolError
  unknown_algorithm : List ℕ → ProtocolError
  algorithm_not_advertised : List ℕ → ProtocolError
  bad_server_random : ℕ → ProtocolError
  no_random : ProtocolError
  unexpected_frame : ℕ → ProtocolError
  server_rejected : List ℕ → ProtocolError

pub data WireError : Type 0 where
  io : WireError
  json : WireError
  protocol : ProtocolError → WireError

pub record Frame : Type 0 where
  pub type_id : ℕ
  pub flags : ℕ
  pub payload : List ℕ

abbrev pub max_payload : ℕ
max_payload = 65_536

-- `read_exact`: the next `n` bytes, or the end of the input before them.
unfoldable pub read_exact : ℕ → List ℕ → Result WireError (List ℕ × List ℕ)
read_exact zero bytes = ok ([], bytes)
read_exact (suc n) [] = err io
read_exact (suc n) (b ∷ bytes) = read_exact n bytes >>= λ (got, rest). ok (b ∷ got, rest)

abbrev pub to_be16 : ℕ → List ℕ
to_be16 n = n / 256 % 256 ∷ n % 256 ∷ []

abbrev pub to_be32 : ℕ → List ℕ
to_be32 n = n / 16_777_216 % 256 ∷ n / 65_536 % 256 ∷ n / 256 % 256 ∷ n % 256 ∷ []

abbrev pub to_be64 : ℕ → List ℕ
to_be64 n = to_be32 (n / 4_294_967_296) ++ to_be32 n

abbrev pub from_be16 : ℕ → ℕ → ℕ
from_be16 a b = a * 256 + b

abbrev pub from_be32 : ℕ → ℕ → ℕ → ℕ → ℕ
from_be32 a b c d = a * 16_777_216 + b * 65_536 + c * 256 + d

-- `read_frame` once the fields of the header are known.
unfoldable pub read_payload : ℕ → ℕ → ℕ → List ℕ → Result WireError (Frame × List ℕ)
unfolding read_exact
read_payload type_id flags len rest =
    guard (flags == 0) (protocol (unsupported_flags flags))
    >> guard (not (ltb max_payload len)) (protocol (payload_too_long len))
    >> read_exact len rest
    >>= λ (payload, rest').
        ok (record { type_id = type_id; flags = flags; payload = payload }, rest')

unfoldable pub read_frame : List ℕ → Result WireError (Frame × List ℕ)
unfolding read_payload
read_frame (t1 ∷ t0 ∷ f1 ∷ f0 ∷ n3 ∷ n2 ∷ n1 ∷ n0 ∷ rest) =
    read_payload (from_be16 t1 t0) (from_be16 f1 f0) (from_be32 n3 n2 n1 n0) rest
read_frame short = err io

unfoldable pub write_frame : Frame → Result WireError (List ℕ)
write_frame f =
    guard (f.flags == 0) (protocol (unsupported_flags f.flags))
    >> guard (not (ltb max_payload (length f.payload)))
        (protocol (payload_too_long (length f.payload)))
    >> ok (to_be16 f.type_id ++ to_be16 f.flags ++ to_be32 (length f.payload) ++ f.payload)

abbrev pub magic_v2 : List ℕ
magic_v2 = b'F' ∷ b'R' ∷ b'P' ∷ 0 ∷ 2 ∷ 13 ∷ 10 ∷ []

-- The bytes read, and whether they are the magic.
unfoldable pub check_magic : List ℕ → Result WireError ((List ℕ × Bool) × List ℕ)
unfolding read_exact
check_magic bytes =
    read_exact (length magic_v2) bytes >>= λ (buf, rest). ok ((buf, buf =? magic_v2), rest)
