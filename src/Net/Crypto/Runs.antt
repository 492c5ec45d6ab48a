-- ===== src/Net/Crypto/Runs.antt =====
-- The stream of rust_frp_net/src/crypto.rs at concrete inputs, with a cipher that only adds its tag.
use rust_frp.Common.{ℕ, ◌≡◌, ◌≢◌, refl, none, ok, List, [], ◌∷◌, ◌++◌, replicate, arith}
use rust_frp.Net.Crypto.{Stream, next_nonce}
use rust_frp.Net.Crypto.Nonces.{nonce_after, nonces_differ}

abbrev stream : Stream
stream = record {
  read_key = 1 ∷ [];
  write_key = 2 ∷ [];
  nonce_prefix = replicate 8 3;
  write_counter = 0;
  out_buf = [];
  out_pos = 0;
  rx_buf = [];
  in_plain = [];
  in_pos = 0;
  sticky_err = none;
}

abbrev half_arrived : Stream
half_arrived = record stream { rx_buf = 0 ∷ 0 ∷ 0 ∷ 29 ∷ replicate 12 1 ++ 5 ∷ [] }

first_nonce : nonce_after 0 stream ≡ ok (replicate 8 3 ++ 0 ∷ 0 ∷ 0 ∷ 0 ∷ [])
unfolding nonce_after next_nonce
first_nonce = refl

third_nonce : nonce_after 2 stream ≡ ok (replicate 8 3 ++ 0 ∷ 0 ∷ 0 ∷ 2 ∷ [])
unfolding nonce_after next_nonce
third_nonce = refl

nonces_differ_example :
    ◌≢◌ {A = List ℕ} (replicate 8 3 ++ 0 ∷ 0 ∷ 0 ∷ 0 ∷ []) (replicate 8 3 ++ 0 ∷ 0 ∷ 0 ∷ 2 ∷ [])
nonces_differ_example =
    nonces_differ 0 2 stream (replicate 8 3 ++ 0 ∷ 0 ∷ 0 ∷ 0 ∷ [])
      (replicate 8 3 ++ 0 ∷ 0 ∷ 0 ∷ 2 ∷ []) (omega arith) first_nonce third_nonce
