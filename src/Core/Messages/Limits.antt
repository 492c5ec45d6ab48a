-- ===== src/Core/Messages/Limits.antt =====
-- What a reader of rust_frp_core/src/lib.rs accepts, from anyone.
use rust_frp.Common.{
  ℕ, ◌≤◌, Option, some, ok, ltb, ◌==◌, ◌≡◌, ap, inl, inr, List, [], ◌∷◌, ◌++◌, length, arith,
  Bool-cases, Option-cases, Result-cases,
}
use rust_frp.Net.WireV2.Frame.{Frame, read_exact, read_frame}
use rust_frp.Net.WireV2.RoundTrip.{read_exact-ok}
use rust_frp.Core.Messages.{
  WireProtocol, v1, v2, frame_type_message, read_body, read_message_with_limit, read_v2_message,
  conn_read,
}
use rust_frp.Net.WireV2.Frame.{from_be16, from_be32}
use rust_frp.Net.WireV2.RoundTrip.{read_payload-ok}

module _ {Message : Type 0} (to_vec : Message → Option (List ℕ))
    (from_slice : List ℕ → Option Message) where
  -- What was read: a short header, a body within the limit that is the message, and the rest.
  pub record IsBounded (max_size : ℕ) (bytes : List ℕ) (msg : Message) (rest : List ℕ)
      : Type 0 where
    pub header : List ℕ
    pub body : List ℕ
    pub parts : bytes ≡ header ++ (body ++ rest)
    pub short : length header ≤ 8
    pub bounded : length body ≤ max_size
    pub parsed : from_slice body ≡ some msg

  read_body-ok :
      (max_size len : ℕ) (bytes : List ℕ) (msg : Message) (rest : List ℕ)
      → read_body to_vec from_slice max_size len bytes ≡ ok (msg, rest)
      → (body : List ℕ) × (bytes ≡ body ++ rest)
        × (length body ≤ max_size)
        × (from_slice body ≡ some msg)
  unfolding read_body
  read_body-ok max_size len bytes msg rest h = elim (Bool-cases (ltb max_size len)) [
    | inl large ↦ absurd (ground (arith, h))
    | inr small ↦ elim (Result-cases (read_exact len bytes)) [
      | inl ((body, rest'), found) ↦
          let (parts, size) = read_exact-ok len bytes body rest' found in
          elim (Option-cases (from_slice body)) [
            | inl unparsed ↦ absurd (ground (arith, h))
            | inr (msg', parsed) ↦
                (body, ground (arith, h, parts), ground (arith, size), ground (arith, h, parsed))
          ]
      | inr (failure, found) ↦ absurd (ground (arith, h))
    ]
  ]

  v1_limit :
      (max_size : ℕ) (bytes : List ℕ) (msg : Message) (rest : List ℕ)
      → read_message_with_limit to_vec from_slice max_size bytes ≡ ok (msg, rest)
      → IsBounded max_size bytes msg rest
  unfolding read_message_with_limit
  v1_limit max_size (n3 ∷ n2 ∷ n1 ∷ n0 ∷ bytes) msg rest h =
      let (body, parts, bounded, parsed) =
        read_body-ok max_size (from_be32 n3 n2 n1 n0) bytes msg rest h in
      record {
        header = n3 ∷ n2 ∷ n1 ∷ n0 ∷ [];
        body = body;
        parts = ap (λ (l : List ℕ). n3 ∷ n2 ∷ n1 ∷ n0 ∷ l) parts;
        short = omega arith;
        bounded = bounded;
        parsed = parsed;
      }
  v1_limit max_size [] msg rest h = absurd (ground (arith, h))
  v1_limit max_size (n3 ∷ []) msg rest h = absurd (ground (arith, h))
  v1_limit max_size (n3 ∷ n2 ∷ []) msg rest h = absurd (ground (arith, h))
  v1_limit max_size (n3 ∷ n2 ∷ n1 ∷ []) msg rest h = absurd (ground (arith, h))

  read_frame-ok :
      (bytes : List ℕ) (f : Frame) (rest : List ℕ)
      → read_frame bytes ≡ ok (f, rest)
      → (header : List ℕ) × (bytes ≡ header ++ (f.payload ++ rest)) × (length header ≡ 8)
  unfolding read_frame
  read_frame-ok (t1 ∷ t0 ∷ f1 ∷ f0 ∷ n3 ∷ n2 ∷ n1 ∷ n0 ∷ body) f rest h =
      let (same_type, zero_flags, no_flags, same_len, small, same) =
        read_payload-ok (from_be16 t1 t0) (from_be16 f1 f0) (from_be32 n3 n2 n1 n0) body rest f h in
      (
        t1 ∷ t0 ∷ f1 ∷ f0 ∷ n3 ∷ n2 ∷ n1 ∷ n0 ∷ [],
        ap (λ (l : List ℕ). t1 ∷ t0 ∷ f1 ∷ f0 ∷ n3 ∷ n2 ∷ n1 ∷ n0 ∷ l) same,
        omega arith,
      )
  read_frame-ok short f rest h = absurd (ground arith)

  v2_limit :
      (max_size : ℕ) (bytes : List ℕ) (msg : Message) (rest : List ℕ)
      → read_v2_message to_vec from_slice max_size bytes ≡ ok (msg, rest)
      → IsBounded max_size bytes msg rest
  unfolding read_v2_message
  v2_limit max_size bytes msg rest h = elim (Result-cases (read_frame bytes)) [
    | inl ((f, rest'), found) ↦
        let (header, parts, size) = read_frame-ok bytes f rest' found in
        elim (Bool-cases (f.type_id == frame_type_message)) [
          | inl is_message ↦ elim (Bool-cases (ltb max_size (length f.payload))) [
            | inl large ↦ absurd (ground (arith, h))
            | inr small ↦ elim (Option-cases (from_slice f.payload)) [
              | inl unparsed ↦ absurd (ground (arith, h))
              | inr (msg', parsed) ↦ record {
                header = header;
                body = f.payload;
                parts = ground (arith, h, parts);
                short = omega (arith, size);
                bounded = ground (arith, small);
                parsed = ground (arith, h, parsed);
              }
            ]
          ]
          | inr is_other ↦ absurd (ground (arith, h))
        ]
    | inr (failure, found) ↦ absurd (ground (arith, h))
  ]

  -- Whatever bytes arrive, in either protocol: a message that is read was the JSON of a body no longer than
  -- the limit, after a header of at most 8 bytes, and what is left is all that follows the body.
  pub conn_read-IsBounded :
      (p : WireProtocol) (max_size : ℕ) (bytes : List ℕ) (msg : Message) (rest : List ℕ)
      → conn_read to_vec from_slice p max_size bytes ≡ ok (msg, rest)
      → IsBounded max_size bytes msg rest
  unfolding conn_read
  conn_read-IsBounded v1 max_size bytes msg rest h = v1_limit max_size bytes msg rest h
  conn_read-IsBounded v2 max_size bytes msg rest h = v2_limit max_size bytes msg rest h
