-- ===== src/Net/Crypto.antt =====
-- rust_frp_net/src/crypto.rs: the stream that seals what is written into frames of AES-256-GCM and
-- opens what is read. The cipher is the crate `ring`, so it is a parameter. The connection below is
-- given by what it answers: one answer for each call of its poll_write or poll_read.
pub mod Frames
pub mod Nonces
pub mod Transfer
pub mod Polls
mod Tagging
mod Runs
use rust_frp.Common.{
  ℕ, zero, suc, ◌+◌, Option, none, some, Bool, true, false, not, ◌&&◌, Result, ok, err, ltb, leb,
  ◌==◌, List, [], ◌∷◌, ◌++◌, length, take, drop, if◌then◌else◌,
}
use rust_frp.Net.WireV2.Frame.{to_be32, from_be32}

abbrev pub nonce_len : ℕ
nonce_len = 12

abbrev pub tag_len : ℕ
tag_len = 16

abbrev pub max_plaintext : ℕ
max_plaintext = 16_384

abbrev pub min_payload : ℕ
min_payload = nonce_len + tag_len

abbrev pub max_payload : ℕ
max_payload = nonce_len + max_plaintext + tag_len

-- `seal_in_place_append_tag` and `open_in_place`, with no associated data.
pub record Aead : Type 0 where
  pub seal : List ℕ → List ℕ → List ℕ → Option (List ℕ)
  pub open_in_place : List ℕ → List ℕ → List ℕ → Option (List ℕ)

pub data StreamError : Type 0 where
  counter_exhausted seal_failed write_zero inner_failed out_of_range open_failed mid_frame_eof
        bad_key :
      StreamError

pub record Stream : Type 0 where
  pub read_key : List ℕ
  pub write_key : List ℕ
  pub nonce_prefix : List ℕ
  pub write_counter : ℕ
  pub out_buf : List ℕ
  pub out_pos : ℕ
  pub rx_buf : List ℕ
  pub in_plain : List ℕ
  pub in_pos : ℕ
  pub sticky_err : Option StreamError

-- `prefix` is what the random generator filled in. A key of AES-256-GCM has 32 bytes.
unfoldable pub new_directional : List ℕ → List ℕ → List ℕ → Result StreamError Stream
new_directional read_key write_key prefix =
    if (length read_key == 32) && (length write_key == 32)
    then ok (record {
      read_key = read_key;
      write_key = write_key;
      nonce_prefix = prefix;
      write_counter = 0;
      out_buf = [];
      out_pos = 0;
      rx_buf = [];
      in_plain = [];
      in_pos = 0;
      sticky_err = none;
    })
    else err bad_key

unfoldable pub next_nonce : Stream → Result StreamError (List ℕ × Stream)
next_nonce s =
    if ltb 4_294_967_295 s.write_counter
    then err counter_exhausted
    else ok (
      s.nonce_prefix ++ to_be32 s.write_counter,
      record s { write_counter = s.write_counter + 1 },
    )

-- What one poll of the connection below answers.
pub data Wrote : Type 0 where
  wrote : ℕ → Wrote
  write_pending write_failed : Wrote

pub data ReadStep : Type 0 where
  got : List ℕ → ReadStep
  read_pending read_failed : ReadStep

-- `Poll<io::Result<A>>`
pub data Poll (A : Type 0) : Type 0 where
  ready : A → Poll A
  pending : Poll A
  failed : StreamError → Poll A

-- The chunks of `poll_write`, at most 16 KiB each; the fuel is the length of the data.
unfoldable pub chunks : ℕ → List ℕ → List (List ℕ)
chunks fuel [] = []
chunks zero (b ∷ bytes) = []
chunks (suc fuel) (b ∷ bytes) =
    take max_plaintext (b ∷ bytes) ∷ chunks fuel (drop max_plaintext (b ∷ bytes))

module _ (aead : Aead) where
  abbrev pub sealed : Stream → List ℕ → Option (List ℕ) → Stream × Option StreamError
  sealed s nonce none = (s, some seal_failed)
  sealed s nonce (some body) = (
    record s { out_buf = s.out_buf ++ (to_be32 (nonce_len + length body) ++ (nonce ++ body)) },
    none,
  )

  abbrev pub seal_with :
      Stream → List ℕ → Result StreamError (List ℕ × Stream) → Stream × Option StreamError
  seal_with s chunk (err e) = (s, some e)
  seal_with s chunk (ok (nonce, s')) = sealed s' nonce (aead.seal s.write_key nonce chunk)

  -- One frame for one chunk; the counter of a failed sealing is used up.
  unfoldable pub seal_into_out_buf : Stream → List ℕ → Stream × Option StreamError
  unfolding next_nonce
  seal_into_out_buf s chunk = seal_with s chunk (next_nonce s)

  abbrev pub opened : Stream → List ℕ → Option (List ℕ) → Result StreamError (Bool × Stream)
  opened s rest none = err open_failed
  opened s rest (some plain) = ok (true, record s { in_plain = s.in_plain ++ plain; rx_buf = rest })

  -- A frame whose length is known, if it is all there.
  abbrev pub decrypt_payload : Stream → ℕ → List ℕ → Result StreamError (Bool × Stream)
  decrypt_payload s len body =
      if not (leb min_payload len && leb len max_payload)
      then err out_of_range
      else if ltb (length body) len
      then ok (false, s)
      else let frame = take len body in
        opened s (drop len body)
          (aead.open_in_place s.read_key (take nonce_len frame) (drop nonce_len frame))

  abbrev pub decrypt_buffer : Stream → List ℕ → Result StreamError (Bool × Stream)
  decrypt_buffer s (n3 ∷ n2 ∷ n1 ∷ n0 ∷ body) = decrypt_payload s (from_be32 n3 n2 n1 n0) body
  decrypt_buffer s short = ok (false, s)

  -- Whether a frame was opened.
  unfoldable pub try_decrypt_frame : Stream → Result StreamError (Bool × Stream)
  try_decrypt_frame s = decrypt_buffer s s.rx_buf

  abbrev pub seal_next :
      (Stream → Stream × Option StreamError)
      → Stream × Option StreamError
      → Stream × Option StreamError
  seal_next continue (s, some e) = (record s { sticky_err = some e }, some e)
  seal_next continue (s, none) = continue s

  -- The loop of `poll_write`: it stops at the first chunk that cannot be sealed.
  unfoldable pub seal_chunks : List (List ℕ) → Stream → Stream × Option StreamError
  unfolding seal_into_out_buf
  seal_chunks [] s = (s, none)
  seal_chunks (chunk ∷ rest) s = seal_next (seal_chunks rest) (seal_into_out_buf s chunk)
