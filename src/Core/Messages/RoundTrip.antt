-- ===== src/Core/Messages/RoundTrip.antt =====
-- A message of rust_frp_core/src/lib.rs that is written and read back.
use rust_frp.Common.{
  ℕ, ◌%◌, ◌^◌, ◌≤◌, ◌<◌, Option, some, false, ok, ltb, ◌≡◌, refl, subst, inl, inr, List, ◌++◌,
  length, arith, Result-cases,
}
use rust_frp.Net.WireV2.Frame.{Frame, write_frame, to_be32}
use rust_frp.Net.WireV2.RoundTrip.{read_exact-append, from_be32-to_be32, read_frame-write_frame}
use rust_frp.Core.Messages.{
  WireProtocol, v1, v2, frame_type_message, read_body, read_message_with_limit, write_message,
  read_v2_message, write_v2_message, conn_read, conn_write,
}

module _ {Message : Type 0} (to_vec : Message → Option (List ℕ))
    (from_slice : List ℕ → Option Message) where
  -- What is written as JSON is read back as it was.
  abbrev pub ReadsBack : Type 0
  ReadsBack = (msg : Message) (body : List ℕ) → to_vec msg ≡ some body → from_slice body ≡ some msg

  -- The JSON of a message fits the limit of its reader.
  abbrev pub Within : ℕ → Message → Type 0
  Within max_size msg = (body : List ℕ) × (to_vec msg ≡ some body) × (length body ≤ max_size)

  read_body-append :
      (max_size : ℕ) (msg : Message) (body rest : List ℕ)
      → from_slice body ≡ some msg
      → length body ≤ max_size
      → read_body to_vec from_slice max_size (length body) (body ++ rest) ≡ ok (msg, rest)
  unfolding read_body
  read_body-append max_size msg body rest parsed fits =
      let small : ltb max_size (length body) ≡ false = ground arith in
      rw (small, read_exact-append body rest) (rw parsed refl)

  v1_read_back :
      (max_size : ℕ) (msg : Message) (bytes rest : List ℕ)
      → ReadsBack
      → max_size < 2 ^ 32
      → Within max_size msg
      → write_message to_vec from_slice msg ≡ ok bytes
      → read_message_with_limit to_vec from_slice max_size (bytes ++ rest) ≡ ok (msg, rest)
  unfolding write_message read_message_with_limit
  v1_read_back max_size msg bytes rest back small (body, is_json, fits) written =
      let whole : length body % 2 ^ 32 ≡ length body = omega arith in
      let e = (rw (is_json, whole) at written) in
      let same : bytes ≡ to_be32 (length body) ++ body = ground (arith, e) in
      rw same (
        rw (from_be32-to_be32 (length body) (omega arith))
          (read_body-append max_size msg body rest (back msg body is_json) fits))

  v2_read_back :
      (max_size : ℕ) (msg : Message) (bytes rest : List ℕ)
      → ReadsBack
      → Within max_size msg
      → write_v2_message to_vec from_slice msg ≡ ok bytes
      → read_v2_message to_vec from_slice max_size (bytes ++ rest) ≡ ok (msg, rest)
  unfolding write_v2_message read_v2_message
  v2_read_back max_size msg bytes rest back (body, is_json, fits) written =
      let f : Frame = record { type_id = frame_type_message; flags = 0; payload = body } in
      let e = (rw is_json at written) in
      elim (Result-cases (write_frame f)) [
        | inl (framed, found) ↦
            let same : framed ≡ bytes = ground (arith, e, found) in
            let small : ltb max_size (length body) ≡ false = ground arith in
            let reads = read_frame-write_frame f framed rest (omega arith) found in
            subst (λ l. read_v2_message to_vec from_slice max_size (l ++ rest) ≡ ok (msg, rest))
              same (rw reads (rw small (rw (back msg body is_json) refl)))
        | inr (failure, found) ↦ absurd (ground (arith, e, found))
      ]

  -- In either protocol a message that was written is read back and nothing more of the input is
  -- touched: if the JSON of a message is read back as it was, it is no longer than the reader's limit, and that limit
  -- is below 2^32, then after the bytes that the connection wrote for it the message is
  -- read, and the rest is left.
  pub conn_read-conn_write :
      (p : WireProtocol) (max_size : ℕ) (msg : Message) (bytes rest : List ℕ)
      → ReadsBack
      → max_size < 2 ^ 32
      → Within max_size msg
      → conn_write to_vec from_slice p msg ≡ ok bytes
      → conn_read to_vec from_slice p max_size (bytes ++ rest) ≡ ok (msg, rest)
  unfolding conn_read conn_write
  conn_read-conn_write v1 max_size msg bytes rest back small fits written =
      v1_read_back max_size msg bytes rest back small fits written
  conn_read-conn_write v2 max_size msg bytes rest back small fits written =
      v2_read_back max_size msg bytes rest back fits written
