-- ===== src/Net/Crypto/Frames.antt =====
-- One frame of the stream in rust_frp_net/src/crypto.rs, sealed on one side and opened on the other,
-- however its bytes arrive.
use rust_frp.Common.{
  ℕ, ◌+◌, ◌≤◌, ◌<◌, some, true, false, ok, ltb, leb, ◌≡◌, refl, sym, ◌∙◌, ap, List, [], ◌∷◌, ◌++◌,
  length, take, drop, arith, length-append, take-append, drop-append,
}
use rust_frp.Net.WireV2.Frame.{to_be32, from_be32}
use rust_frp.Net.WireV2.RoundTrip.{from_be32-to_be32}
use rust_frp.Net.Crypto.{
  Aead, Stream, nonce_len, tag_len, max_plaintext, min_payload, max_payload, decrypt_payload,
  decrypt_buffer, try_decrypt_frame,
}

-- The frame around a body.
abbrev pub frame : List ℕ → List ℕ → List ℕ
frame nonce body = to_be32 (nonce_len + length body) ++ (nonce ++ body)

module _ (aead : Aead) where
  -- What the cipher documents: what was sealed is opened, and a tag of 16 bytes is added.
  abbrev pub Opens : Type 0
  Opens =
      (key nonce plain body : List ℕ)
      → aead.seal key nonce plain ≡ some body
      → (aead.open_in_place key nonce body ≡ some plain) × (length body ≡ length plain + tag_len)

  decrypt_payload-whole :
      (s : Stream) (nonce body plain rest : List ℕ)
      → length nonce ≡ nonce_len
      → length body ≡ length plain + tag_len
      → length plain ≤ max_plaintext
      → aead.open_in_place s.read_key nonce body ≡ some plain
      → decrypt_payload aead s (nonce_len + length body) ((nonce ++ body) ++ rest)
        ≡ ok (true, record s { in_plain = s.in_plain ++ plain; rx_buf = rest })
  decrypt_payload-whole s nonce body plain rest size tagged small opens =
      let len : nonce_len + length body ≡ length (nonce ++ body) =
        omega (arith, length-append nonce body) in
      let first : take nonce_len (nonce ++ body) ≡ nonce =
        ap (λ n. take n (nonce ++ body)) (sym size) ∙ take-append nonce body in
      let second : drop nonce_len (nonce ++ body) ≡ body =
        ap (λ n. drop n (nonce ++ body)) (sym size) ∙ drop-append nonce body in
      let low : leb min_payload (length (nonce ++ body)) ≡ true = ground arith in
      let high : leb (length (nonce ++ body)) max_payload ≡ true = ground arith in
      let there : ltb (length ((nonce ++ body) ++ rest)) (length (nonce ++ body)) ≡ false =
        ground (arith, length-append (nonce ++ body) rest) in
      rw (len, low, high, there, take-append (nonce ++ body) rest, drop-append (nonce ++ body) rest)
        (rw (first, second, opens) refl)

  decrypt_buffer-frame :
      (s : Stream) (nonce body plain rest : List ℕ)
      → length nonce ≡ nonce_len
      → length body ≡ length plain + tag_len
      → length plain ≤ max_plaintext
      → aead.open_in_place s.read_key nonce body ≡ some plain
      → decrypt_buffer aead s (frame nonce body ++ rest)
        ≡ ok (true, record s { in_plain = s.in_plain ++ plain; rx_buf = rest })
  decrypt_buffer-frame s nonce body plain rest size tagged small opens =
      rw (from_be32-to_be32 (nonce_len + length body) (omega arith))
        (decrypt_payload-whole s nonce body plain rest size tagged small opens)

  pub try_decrypt_frame-frame :
      (s : Stream) (nonce body plain rest : List ℕ)
      → length nonce ≡ nonce_len
      → length body ≡ length plain + tag_len
      → length plain ≤ max_plaintext
      → aead.open_in_place s.read_key nonce body ≡ some plain
      → s.rx_buf ≡ frame nonce body ++ rest
      → try_decrypt_frame aead s
        ≡ ok (true, record s { in_plain = s.in_plain ++ plain; rx_buf = rest })
  unfolding try_decrypt_frame
  try_decrypt_frame-frame s nonce body plain rest size tagged small opens there =
      ap (decrypt_buffer aead s) there
      ∙ decrypt_buffer-frame s nonce body plain rest size tagged small opens

  decrypt_payload-prefix :
      (s : Stream) (len : ℕ) (got : List ℕ)
      → min_payload ≤ len
      → len ≤ max_payload
      → length got < len
      → decrypt_payload aead s len got ≡ ok (false, s)
  decrypt_payload-prefix s len got low high missing =
      let at_least : leb min_payload len ≡ true = ground arith in
      let at_most : leb len max_payload ≡ true = ground arith in
      let short : ltb (length got) len ≡ true = ground arith in rw (at_least, at_most, short) refl

  decrypt_buffer-prefix :
      (s : Stream) (got : List ℕ) (nonce body plain later : List ℕ)
      → length nonce ≡ nonce_len
      → length body ≡ length plain + tag_len
      → length plain ≤ max_plaintext
      → 1 ≤ length later
      → got ++ later ≡ frame nonce body
      → decrypt_buffer aead s got ≡ ok (false, s)
  decrypt_buffer-prefix s [] nonce body plain later size tagged small missing parts = refl
  decrypt_buffer-prefix s (n3 ∷ []) nonce body plain later size tagged small missing parts = refl
  decrypt_buffer-prefix s (n3 ∷ n2 ∷ []) nonce body plain later size tagged small missing parts =
      refl
  decrypt_buffer-prefix s (n3 ∷ n2 ∷ n1 ∷ []) nonce body plain later size tagged small missing
        parts =
      refl
  decrypt_buffer-prefix s (n3 ∷ n2 ∷ n1 ∷ n0 ∷ more) nonce body plain later size tagged small
        missing parts =
      let len = nonce_len + length body in
      let split : more ++ later ≡ nonce ++ body = ground arith in
      let header : from_be32 n3 n2 n1 n0 ≡ len =
        ground (arith, from_be32-to_be32 len (omega arith)) in
      rw header (
        decrypt_payload-prefix s len more (omega arith) (omega arith)
          (omega (arith, length-append more later, length-append nonce body, ap length split)))

  -- A part of a frame is left alone until the rest of it has come: for any proper prefix of a frame
  -- that was sealed, `try_decrypt_frame` answers that there is no frame, and changes nothing.
  pub try_decrypt_frame-prefix :
      (s : Stream) (nonce body plain later : List ℕ)
      → length nonce ≡ nonce_len
      → length body ≡ length plain + tag_len
      → length plain ≤ max_plaintext
      → 1 ≤ length later
      → s.rx_buf ++ later ≡ frame nonce body
      → try_decrypt_frame aead s ≡ ok (false, s)
  unfolding try_decrypt_frame
  try_decrypt_frame-prefix s nonce body plain later size tagged small missing parts =
      decrypt_buffer-prefix s s.rx_buf nonce body plain later size tagged small missing parts
