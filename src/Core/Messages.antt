-- ===== src/Core/Messages.antt =====
-- rust_frp_core/src/lib.rs: how a control connection reads and writes its messages, in the two wire
-- protocols. Messages and their JSON (serde_json) are parameters; a connection is the bytes to come.
pub mod RoundTrip
pub mod Limits
mod Runs
use rust_frp.Common.{
  ℕ, ◌*◌, ◌%◌, ◌^◌, Option, none, some, not, Result, ok, err, ◌>>=◌, ◌>>◌, guard, ltb, ◌==◌, List,
  [], ◌∷◌, ◌++◌, length,
}
use rust_frp.Net.WireV2.Frame.{
  Frame, WireError, read_exact, read_frame, write_frame, to_be32, from_be32,
}

abbrev pub max_message_size : ℕ
max_message_size = 10 * 1024 * 1024

abbrev pub max_preauth_message_size : ℕ
max_preauth_message_size = 64 * 1024

abbrev pub frame_type_message : ℕ
frame_type_message = 16

pub data MessageError : Type 0 where
  wire_error : WireError → MessageError
  too_large : ℕ → ℕ → MessageError
  unexpected_frame_type : ℕ → MessageError
  bad_json : MessageError

pub data WireProtocol : Type 0 where
  v1 v2 : WireProtocol

-- An error of the connection or of the frames.
abbrev pub from_wire : {A : Type 0} → Result WireError A → Result MessageError A
from_wire (ok a) = ok a
from_wire (err e) = err (wire_error e)

abbrev pub from_json : {A : Type 0} → Option A → Result MessageError A
from_json none = err bad_json
from_json (some a) = ok a

module _ {Message : Type 0} (to_vec : Message → Option (List ℕ))
    (from_slice : List ℕ → Option Message) where
  -- The body of a message whose length is known.
  unfoldable pub read_body : ℕ → ℕ → List ℕ → Result MessageError (Message × List ℕ)
  unfolding read_exact
  read_body max_size len bytes =
      guard (not (ltb max_size len)) (too_large len max_size)
      >> from_wire (read_exact len bytes)
      >>= λ (body, rest). from_json (from_slice body) >>= λ msg. ok (msg, rest)

  unfoldable pub read_message_with_limit : ℕ → List ℕ → Result MessageError (Message × List ℕ)
  unfolding read_body
  read_message_with_limit max_size (n3 ∷ n2 ∷ n1 ∷ n0 ∷ bytes) =
      read_body max_size (from_be32 n3 n2 n1 n0) bytes
  read_message_with_limit max_size short = err (wire_error WireError.io)

  unfoldable pub read_message : List ℕ → Result MessageError (Message × List ℕ)
  unfolding read_message_with_limit
  read_message = read_message_with_limit max_message_size

  -- The length field is `len() as u32`.
  unfoldable pub write_message : Message → Result MessageError (List ℕ)
  write_message msg = from_json (to_vec msg) >>= λ body. ok (to_be32 (length body % 2 ^ 32) ++ body)

  unfoldable pub read_v2_message : ℕ → List ℕ → Result MessageError (Message × List ℕ)
  unfolding read_frame
  read_v2_message max_size bytes = from_wire (read_frame bytes) >>= λ (frame, rest).
      guard (frame.type_id == frame_type_message) (unexpected_frame_type frame.type_id)
      >> guard (not (ltb max_size (length frame.payload)))
          (too_large (length frame.payload) max_size)
      >> from_json (from_slice frame.payload)
      >>= λ msg. ok (msg, rest)

  unfoldable pub write_v2_message : Message → Result MessageError (List ℕ)
  unfolding write_frame
  write_v2_message msg = from_json (to_vec msg) >>= λ body.
      from_wire (write_frame (record { type_id = frame_type_message; flags = 0; payload = body }))

  -- `ControlConn`: the protocol of the connection chooses.
  unfoldable pub conn_read : WireProtocol → ℕ → List ℕ → Result MessageError (Message × List ℕ)
  unfolding read_message_with_limit read_v2_message
  conn_read v1 = read_message_with_limit
  conn_read v2 = read_v2_message

  unfoldable pub conn_write : WireProtocol → Message → Result MessageError (List ℕ)
  unfolding write_message write_v2_message
  conn_write v1 = write_message
  conn_write v2 = write_v2_message
