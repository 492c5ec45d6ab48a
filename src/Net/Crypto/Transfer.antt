-- ===== src/Net/Crypto/Transfer.antt =====
-- What one side of the stream in rust_frp_net/src/crypto.rs writes and the other reads.
use rust_frp.Common.{
  ℕ, zero, suc, ◌+◌, ◌≤◌, none, some, Bool, true, false, Result, ok, ◌>>=◌, ltb, ◌≡◌, refl, sym,
  ◌∙◌, ap, List, [], ◌∷◌, ◌++◌, length, take, drop, All, arith, length-append, take-append-drop,
  length-take, length-drop,
}
use mathlib.Core.List.{append_assoc, append-nil}
use rust_frp.Net.WireV2.Frame.{to_be32}
use rust_frp.Net.Crypto.Frames.{frame, Opens, try_decrypt_frame-frame}
use rust_frp.Net.Crypto.{
  Aead, Stream, StreamError, nonce_len, max_plaintext, next_nonce, seal_into_out_buf,
  try_decrypt_frame, chunks, seal_chunks,
}

module _ (aead : Aead) where
  -- `n` calls of `try_decrypt_frame`, each of which must open a frame.
  abbrev pub opened_one :
      (Stream → Result StreamError Stream) → Bool × Stream → Result StreamError Stream
  opened_one continue (true, s) = continue s
  opened_one continue (false, s) = ok s

  unfoldable pub open_frames : ℕ → Stream → Result StreamError Stream
  open_frames zero s = ok s
  open_frames (suc n) s = try_decrypt_frame aead s >>= opened_one (open_frames n)

  -- The cipher seals whatever fits into a frame.
  abbrev pub Seals : Type 0
  Seals =
      (key nonce plain : List ℕ)
      → length plain ≤ max_plaintext
      → (body : List ℕ) × (aead.seal key nonce plain ≡ some body)

  abbrev pub concat : List (List ℕ) → List ℕ
  concat [] = []
  concat (c ∷ cs) = c ++ concat cs

  abbrev pub Fits : List ℕ → Type 0
  Fits chunk = length chunk ≤ max_plaintext

  -- The bytes that `seal_chunks` adds to the buffer, and what any reader with the same key makes of them.
  abbrev pub Carried : Stream → List (List ℕ) → List ℕ → Type 0
  Carried w cs bytes =
      ((seal_chunks aead cs w).1 ≡ none)
      × ((seal_chunks aead cs w).0.out_buf ≡ w.out_buf ++ bytes)
      × ((r : Stream) (rest : List ℕ)
          → r.read_key ≡ w.write_key
          → r.rx_buf ≡ bytes ++ rest
          → open_frames (length cs) r
            ≡ ok (record r { in_plain = r.in_plain ++ concat cs; rx_buf = rest }))

  pub seal_into_out_buf-ok :
      (w : Stream) (chunk body : List ℕ)
      → w.write_counter ≤ 4_294_967_295
      → let nonce = w.nonce_prefix ++ to_be32 w.write_counter in
        aead.seal w.write_key nonce chunk ≡ some body
        → seal_into_out_buf aead w chunk ≡ (
          record w { write_counter = w.write_counter + 1; out_buf = w.out_buf ++ frame nonce body },
          none,
        )
  unfolding seal_into_out_buf next_nonce
  seal_into_out_buf-ok w chunk body below sealed_to =
      let unused : ltb 4_294_967_295 w.write_counter ≡ false = ground arith in
      rw (unused, sealed_to) refl

  seal_chunks-Carried :
      (w : Stream) (cs : List (List ℕ))
      → Opens aead
      → Seals
      → length w.nonce_prefix ≡ 8
      → All Fits cs
      → w.write_counter + length cs ≤ 4_294_967_296
      → (bytes : List ℕ) × Carried w cs bytes
  unfolding seal_chunks open_frames
  seal_chunks-Carried w [] opens seals prefix fits room = (
    [],
    (
      refl,
      sym (append-nil w.out_buf),
      λ r rest key there.
          ap (λ b. ok (record r { rx_buf = b })) there
          ∙ ap (λ p. ok (record r { in_plain = p; rx_buf = rest })) (sym (append-nil r.in_plain)),
    ),
  )
  seal_chunks-Carried w (c ∷ cs) opens seals prefix (fit, fits) room =
      let nonce = w.nonce_prefix ++ to_be32 w.write_counter in
      let (body, sealed_to) = seals w.write_key nonce c fit in
      let (opens_to, tagged) = opens w.write_key nonce c body sealed_to in
      let once = seal_into_out_buf-ok w c body (omega (arith, room)) sealed_to in
      let w' : Stream = record w {
        write_counter = w.write_counter + 1;
        out_buf = w.out_buf ++ frame nonce body;
      } in
      let (bytes, (done, buffer, reads)) =
        seal_chunks-Carried w' cs opens seals prefix fits (omega (arith, room)) in
      let size : length nonce ≡ nonce_len =
        omega (arith, prefix, length-append w.nonce_prefix (to_be32 w.write_counter)) in
      (
        frame nonce body ++ bytes,
        (
          rw once done,
          rw once (buffer ∙ append_assoc w.out_buf (frame nonce body) bytes),
          λ r rest key there.
              let whole = there ∙ append_assoc (frame nonce body) bytes rest in
              let opens_here = ap (λ k. aead.open_in_place k nonce body) key ∙ opens_to in
              rw
                (try_decrypt_frame-frame aead r nonce body c (bytes ++ rest) size tagged fit
                  opens_here whole)
                (reads (record r { in_plain = r.in_plain ++ c; rx_buf = bytes ++ rest }) rest key
                    refl
                  ∙ ap (λ p. ok (record r { in_plain = p; rx_buf = rest }))
                      (append_assoc r.in_plain c (concat cs))),
        ),
      )

  pub concat-chunks :
      (fuel : ℕ) (bytes : List ℕ) → length bytes ≤ fuel → concat (chunks fuel bytes) ≡ bytes
  unfolding chunks
  concat-chunks zero [] enough = refl
  concat-chunks zero (b ∷ bytes) enough = absurd (omega arith)
  concat-chunks (suc fuel) [] enough = refl
  concat-chunks (suc fuel) (b ∷ bytes) enough =
      ap (λ l. take max_plaintext (b ∷ bytes) ++ l)
        (concat-chunks fuel (drop max_plaintext (b ∷ bytes))
          (omega (arith, length-drop max_plaintext (b ∷ bytes))))
      ∙ take-append-drop max_plaintext (b ∷ bytes)

  pub chunks-Fits : (fuel : ℕ) (bytes : List ℕ) → All Fits (chunks fuel bytes)
  unfolding chunks
  chunks-Fits zero [] = tt
  chunks-Fits zero (b ∷ bytes) = tt
  chunks-Fits (suc fuel) [] = tt
  chunks-Fits (suc fuel) (b ∷ bytes) = (
    omega (arith, length-take max_plaintext (b ∷ bytes)),
    chunks-Fits fuel (drop max_plaintext (b ∷ bytes)),
  )

  -- All of the data arrives: with a cipher that opens what it seals, and a counter that has room for one
  -- nonce per chunk, `poll_write`'s loop seals the data without an error into bytes that it adds to
  -- the buffer, and every reader that holds the same key and receives these bytes opens, in one call
  -- per chunk, exactly the data, and keeps what follows.
  pub open_frames-seal_chunks :
      (w : Stream) (text : List ℕ)
      → Opens aead
      → Seals
      → length w.nonce_prefix ≡ 8
      → w.write_counter + length (chunks (length text) text) ≤ 4_294_967_296
      → (bytes : List ℕ) × ((seal_chunks aead (chunks (length text) text) w).1 ≡ none)
        × ((seal_chunks aead (chunks (length text) text) w).0.out_buf ≡ w.out_buf ++ bytes)
        × ((r : Stream) (rest : List ℕ)
            → r.read_key ≡ w.write_key
            → r.rx_buf ≡ bytes ++ rest
            → open_frames (length (chunks (length text) text)) r
              ≡ ok (record r { in_plain = r.in_plain ++ text; rx_buf = rest }))
  open_frames-seal_chunks w text opens seals prefix room =
      let cs = chunks (length text) text in
      let (bytes, (done, buffer, reads)) =
        seal_chunks-Carried w cs opens seals prefix (chunks-Fits (length text) text) room in
      (
        bytes,
        done,
        buffer,
        λ r rest key there.
            reads r rest key there
            ∙ ap (λ p. ok (record r { in_plain = r.in_plain ++ p; rx_buf = rest }))
                (concat-chunks (length text) text (omega arith)),
      )
