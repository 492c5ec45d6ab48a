-- ===== src/Net/Compress/Runs.antt =====
-- The stream of rust_frp_net/src/compress.rs at concrete inputs, with a codec that puts a byte in front.
use rust_frp.Common.{
  ℕ, ◌+◌, none, some, ok, err, ◌≡◌, refl, List, [], ◌∷◌, ◌++◌, length, drop, arith,
}
use rust_frp.Net.Compress.{
  Snappy, BlockStream, new, blocks, compress_blocks, try_decompress_frame, length_out_of_range,
}
use rust_frp.Net.Compress.RoundTrip.{Restores, open_blocks, open_blocks-compress_blocks}

abbrev marking : Snappy
marking = record {
  compress_vec = λ plain. some (1 ∷ plain);
  decompress_vec = λ body. some (drop 1 body);
  max_compress_len = λ n. n + 1;
}

marking-Restores : Restores marking
marking-Restores plain fits = (1 ∷ plain, refl, refl, omega arith, omega arith)

empty_frame :
    try_decompress_frame marking (record new { rx_buf = 0 ∷ 0 ∷ 0 ∷ 0 ∷ [] })
    ≡ err length_out_of_range
unfolding try_decompress_frame
empty_frame = refl

open_blocks-compress_blocks_example :
    (bytes : List ℕ) × ((compress_blocks marking (blocks 2 (7 ∷ 8 ∷ [])) new).1 ≡ none)
    × ((compress_blocks marking (blocks 2 (7 ∷ 8 ∷ [])) new).0.out_buf ≡ new.out_buf ++ bytes)
    × ((r : BlockStream) (rest : List ℕ)
        → r.rx_buf ≡ bytes ++ rest
        → open_blocks marking (length (blocks 2 (7 ∷ 8 ∷ []))) r
          ≡ ok (record r { in_plain = r.in_plain ++ 7 ∷ 8 ∷ []; rx_buf = rest }))
open_blocks-compress_blocks_example =
    open_blocks-compress_blocks marking new (7 ∷ 8 ∷ []) marking-Restores (omega arith)
