-- ===== src/Net/Compress.antt =====
-- rust_frp_net/src/compress.rs: the stream that compresses what is written block by block and
-- decompresses what is read. The codec is the crate `snap`, so it is a parameter.
pub mod RoundTrip
mod Runs
use rust_frp.Common.{
  ℕ, zero, suc, ◌*◌, Option, none, some, Bool, true, false, ◌||◌, Result, ok, err, ltb, ◌==◌, List,
  [], ◌∷◌, ◌++◌, length, take, drop, if◌then◌else◌,
}
use rust_frp.Net.WireV2.Frame.{to_be32, from_be32}

abbrev pub max_block : ℕ
max_block = 32 * 1024

-- `snap::raw`: the encoder, the decoder, and the bound on what a block is compressed to.
pub record Snappy : Type 0 where
  pub compress_vec : List ℕ → Option (List ℕ)
  pub decompress_vec : List ℕ → Option (List ℕ)
  pub max_compress_len : ℕ → ℕ

pub data BlockError : Type 0 where
  compress_failed decompress_failed length_out_of_range block_too_large : BlockError

pub record BlockStream : Type 0 where
  pub out_buf : List ℕ
  pub out_pos : ℕ
  pub rx_buf : List ℕ
  pub in_plain : List ℕ
  pub in_pos : ℕ
  pub sticky_err : Option BlockError

unfoldable pub new : BlockStream
new = record {
  out_buf = [];
  out_pos = 0;
  rx_buf = [];
  in_plain = [];
  in_pos = 0;
  sticky_err = none;
}

-- The blocks of `poll_write`; the fuel is the length of the data.
unfoldable pub blocks : ℕ → List ℕ → List (List ℕ)
blocks fuel [] = []
blocks zero (b ∷ bytes) = []
blocks (suc fuel) (b ∷ bytes) =
    take max_block (b ∷ bytes) ∷ blocks fuel (drop max_block (b ∷ bytes))

module _ (snap : Snappy) where
  abbrev pub max_frame_payload : ℕ
  max_frame_payload = snap.max_compress_len max_block

  abbrev pub compressed : BlockStream → Option (List ℕ) → BlockStream × Option BlockError
  compressed s none = (s, some compress_failed)
  compressed s (some body) =
      (record s { out_buf = s.out_buf ++ (to_be32 (length body) ++ body) }, none)

  unfoldable pub compress_into_out_buf : BlockStream → List ℕ → BlockStream × Option BlockError
  compress_into_out_buf s chunk = compressed s (snap.compress_vec chunk)

  abbrev pub compress_next :
      (BlockStream → BlockStream × Option BlockError)
      → BlockStream × Option BlockError
      → BlockStream × Option BlockError
  compress_next continue (s, some e) = (record s { sticky_err = some e }, some e)
  compress_next continue (s, none) = continue s

  -- The loop of `poll_write`: it stops at the first block that cannot be compressed.
  unfoldable pub compress_blocks : List (List ℕ) → BlockStream → BlockStream × Option BlockError
  unfolding compress_into_out_buf
  compress_blocks [] s = (s, none)
  compress_blocks (chunk ∷ rest) s =
      compress_next (compress_blocks rest) (compress_into_out_buf s chunk)

  abbrev pub decompressed :
      BlockStream → List ℕ → Option (List ℕ) → Result BlockError (Bool × BlockStream)
  decompressed s rest none = err decompress_failed
  decompressed s rest (some plain) =
      if ltb max_block (length plain)
      then err block_too_large
      else ok (true, record s { in_plain = s.in_plain ++ plain; rx_buf = rest })

  abbrev pub decompress_payload : BlockStream → ℕ → List ℕ → Result BlockError (Bool × BlockStream)
  decompress_payload s len body =
      if (len == 0) || ltb max_frame_payload len
      then err length_out_of_range
      else if ltb (length body) len
      then ok (false, s)
      else decompressed s (drop len body) (snap.decompress_vec (take len body))

  abbrev pub decompress_buffer : BlockStream → List ℕ → Result BlockError (Bool × BlockStream)
  decompress_buffer s (n3 ∷ n2 ∷ n1 ∷ n0 ∷ body) = decompress_payload s (from_be32 n3 n2 n1 n0) body
  decompress_buffer s short = ok (false, s)

  unfoldable pub try_decompress_frame : BlockStream → Result BlockError (Bool × BlockStream)
  try_decompress_frame s = decompress_buffer s s.rx_buf
