-- ===== src/Net/Compress/RoundTrip.antt =====
-- What one side of the stream in rust_frp_net/src/compress.rs compresses and the other decompresses.
use rust_frp.Common.{
  ℕ, zero, suc, ◌≤◌, ◌<◌, none, some, Bool, true, false, Result, ok, ◌>>=◌, ltb, ◌==◌, ◌≡◌, refl,
  sym, ◌∙◌, ap, List, [], ◌∷◌, ◌++◌, length, take, drop, All, arith, length-append, length-take,
  length-drop, take-append, drop-append, take-append-drop,
}
use mathlib.Core.List.{append_assoc, append-nil}
use rust_frp.Net.WireV2.Frame.{to_be32}
use rust_frp.Net.WireV2.RoundTrip.{from_be32-to_be32}
use rust_frp.Net.Compress.{
  Snappy, BlockStream, BlockError, max_block, max_frame_payload, blocks, compress_into_out_buf,
  compress_blocks, decompress_payload, decompress_buffer, try_decompress_frame,
}

abbrev pub concat : List (List ℕ) → List ℕ
concat [] = []
concat (c ∷ cs) = c ++ concat cs

abbrev pub IsBlock : List ℕ → Type 0
IsBlock chunk = length chunk ≤ max_block

pub concat-blocks :
    (fuel : ℕ) (bytes : List ℕ) → length bytes ≤ fuel → concat (blocks fuel bytes) ≡ bytes
unfolding blocks
concat-blocks zero [] enough = refl
concat-blocks zero (b ∷ bytes) enough = absurd (omega arith)
concat-blocks (suc fuel) [] enough = refl
concat-blocks (suc fuel) (b ∷ bytes) enough =
    ap (λ l. take max_block (b ∷ bytes) ++ l)
      (concat-blocks fuel (drop max_block (b ∷ bytes))
        (omega (arith, length-drop max_block (b ∷ bytes))))
    ∙ take-append-drop max_block (b ∷ bytes)

blocks-IsBlock : (fuel : ℕ) (bytes : List ℕ) → All IsBlock (blocks fuel bytes)
unfolding blocks
blocks-IsBlock zero [] = tt
blocks-IsBlock zero (b ∷ bytes) = tt
blocks-IsBlock (suc fuel) [] = tt
blocks-IsBlock (suc fuel) (b ∷ bytes) = (
  omega (arith, length-take max_block (b ∷ bytes)),
  blocks-IsBlock fuel (drop max_block (b ∷ bytes)),
)

module _ (snap : Snappy) where
  -- What the codec documents: a block that fits is compressed within the bound and to something, and
  -- is restored from it.
  abbrev pub Restores : Type 0
  Restores =
      (plain : List ℕ)
      → length plain ≤ max_block
      → (body : List ℕ) × (snap.compress_vec plain ≡ some body)
        × (snap.decompress_vec body ≡ some plain)
        × (1 ≤ length body)
        × (length body ≤ max_frame_payload snap)

  abbrev opened_one :
      (BlockStream → Result BlockError BlockStream)
      → Bool × BlockStream
      → Result BlockError BlockStream
  opened_one continue (true, s) = continue s
  opened_one continue (false, s) = ok s

  -- `n` calls of `try_decompress_frame`, each of which must find a frame.
  unfoldable pub open_blocks : ℕ → BlockStream → Result BlockError BlockStream
  open_blocks zero s = ok s
  open_blocks (suc n) s = try_decompress_frame snap s >>= opened_one (open_blocks n)

  decompress_payload-whole :
      (s : BlockStream) (body plain rest : List ℕ)
      → 1 ≤ length body
      → length body ≤ max_frame_payload snap
      → length plain ≤ max_block
      → snap.decompress_vec body ≡ some plain
      → decompress_payload snap s (length body) (body ++ rest)
        ≡ ok (true, record s { in_plain = s.in_plain ++ plain; rx_buf = rest })
  decompress_payload-whole s body plain rest some_bytes within fits restored =
      let nonempty : (length body == 0) ≡ false = ground arith in
      let low : ltb (max_frame_payload snap) (length body) ≡ false = ground arith in
      let there : ltb (length (body ++ rest)) (length body) ≡ false =
        ground (arith, length-append body rest) in
      let small : ltb max_block (length plain) ≡ false = ground arith in
      rw (nonempty, low, there, take-append body rest, drop-append body rest)
        (rw restored (rw small refl))

  try_decompress_frame-whole :
      (s : BlockStream) (body plain rest : List ℕ)
      → max_frame_payload snap < 4_294_967_296
      → 1 ≤ length body
      → length body ≤ max_frame_payload snap
      → length plain ≤ max_block
      → snap.decompress_vec body ≡ some plain
      → s.rx_buf ≡ (to_be32 (length body) ++ body) ++ rest
      → try_decompress_frame snap s
        ≡ ok (true, record s { in_plain = s.in_plain ++ plain; rx_buf = rest })
  unfolding try_decompress_frame
  try_decompress_frame-whole s body plain rest bound some_bytes within fits restored there =
      ap (decompress_buffer snap s) there
      ∙ rw (from_be32-to_be32 (length body) (omega (arith, bound, within)))
          (decompress_payload-whole s body plain rest some_bytes within fits restored)

  abbrev Carried : BlockStream → List (List ℕ) → List ℕ → Type 0
  Carried w cs bytes =
      ((compress_blocks snap cs w).1 ≡ none)
      × ((compress_blocks snap cs w).0.out_buf ≡ w.out_buf ++ bytes)
      × ((r : BlockStream) (rest : List ℕ)
          → r.rx_buf ≡ bytes ++ rest
          → open_blocks (length cs) r
            ≡ ok (record r { in_plain = r.in_plain ++ concat cs; rx_buf = rest }))

  compress_blocks-Carried :
      (w : BlockStream) (cs : List (List ℕ))
      → Restores
      → max_frame_payload snap < 4_294_967_296
      → All IsBlock cs
      → (bytes : List ℕ) × Carried w cs bytes
  unfolding compress_blocks compress_into_out_buf open_blocks
  compress_blocks-Carried w [] restores bound fits = (
    [],
    (
      refl,
      sym (append-nil w.out_buf),
      λ r rest there.
          ap (λ b. ok (record r { rx_buf = b })) there
          ∙ ap (λ p. ok (record r { in_plain = p; rx_buf = rest })) (sym (append-nil r.in_plain)),
    ),
  )
  compress_blocks-Carried w (c ∷ cs) restores bound (fit, fits) =
      let (body, is_body, restored, some_bytes, within) = restores c fit in
      let framed = to_be32 (length body) ++ body in
      let w' : BlockStream = record w { out_buf = w.out_buf ++ framed } in
      let (bytes, (done, buffer, reads)) = compress_blocks-Carried w' cs restores bound fits in
      (
        framed ++ bytes,
        (
          rw is_body done,
          rw is_body (buffer ∙ append_assoc w.out_buf framed bytes),
          λ r rest there.
              rw
                (try_decompress_frame-whole r body c (bytes ++ rest) bound some_bytes within fit
                  restored (there ∙ append_assoc framed bytes rest))
                (reads (record r { in_plain = r.in_plain ++ c; rx_buf = bytes ++ rest }) rest refl
                  ∙ ap (λ p. ok (record r { in_plain = p; rx_buf = rest }))
                      (append_assoc r.in_plain c (concat cs))),
        ),
      )

  -- Data of any length arrives: with a codec that restores every block that fits and whose bound is
  -- below 2^32, `poll_write`'s loop adds bytes to the buffer without an error, and every reader that
  -- receives these bytes decompresses, in one call per block, exactly the data, and keeps what follows.
  pub open_blocks-compress_blocks :
      (w : BlockStream) (text : List ℕ)
      → Restores
      → max_frame_payload snap < 4_294_967_296
      → let cs = blocks (length text) text in
        (bytes : List ℕ) × ((compress_blocks snap cs w).1 ≡ none)
        × ((compress_blocks snap cs w).0.out_buf ≡ w.out_buf ++ bytes)
        × ((r : BlockStream) (rest : List ℕ)
            → r.rx_buf ≡ bytes ++ rest
            → open_blocks (length cs) r
              ≡ ok (record r { in_plain = r.in_plain ++ text; rx_buf = rest }))
  open_blocks-compress_blocks w text restores bound =
      let cs = blocks (length text) text in
      let (bytes, (done, buffer, reads)) =
        compress_blocks-Carried w cs restores bound (blocks-IsBlock (length text) text) in
      (
        bytes,
        done,
        buffer,
        λ r rest there.
            reads r rest there
            ∙ ap (λ p. ok (record r { in_plain = r.in_plain ++ p; rx_buf = rest }))
                (concat-blocks (length text) text (omega arith)),
      )
