-- ===== src/Net/Crypto/Nonces.antt =====
-- The nonces of the stream in rust_frp_net/src/crypto.rs over its whole life.
use rust_frp.Common.{
  ℕ, zero, suc, ◌+◌, ◌≤◌, ◌<◌, Result, ok, err, ◌>>=◌, true, ltb, ◌≡◌, ◌≢◌, refl, sym, ◌∙◌, ap,
  List, ◌++◌, arith, Bool-cases, inl, inr,
}
use rust_frp.Net.WireV2.Frame.{to_be32}
use rust_frp.Net.WireV2.Derivation.{to_be32-injective, cancel_left}
use rust_frp.Net.Crypto.{Stream, StreamError, counter_exhausted, next_nonce}

-- The nonce after `n` calls that succeeded, or the error of the first that failed.
unfoldable pub nonce_after : ℕ → Stream → Result StreamError (List ℕ)
unfolding next_nonce
nonce_after zero s = next_nonce s >>= λ (nonce, s'). ok nonce
nonce_after (suc n) s = next_nonce s >>= λ (nonce, s'). nonce_after n s'

nonce_after-ok :
    (n : ℕ) (s : Stream) (nonce : List ℕ)
    → nonce_after n s ≡ ok nonce
    → (s.write_counter + n < 4_294_967_296)
      × (nonce ≡ s.nonce_prefix ++ to_be32 (s.write_counter + n))
unfolding nonce_after next_nonce
nonce_after-ok zero s nonce h = elim (Bool-cases (ltb 4_294_967_295 s.write_counter)) [
  | inl used ↦ absurd (ground arith)
  | inr unused ↦ (ground arith, ground arith)
]
nonce_after-ok (suc n) s nonce h = elim (Bool-cases (ltb 4_294_967_295 s.write_counter)) [
  | inl used ↦ absurd (ground arith)
  | inr unused ↦
      let ih =
        nonce_after-ok n (record s { write_counter = s.write_counter + 1 }) nonce
          (rw unused at h) in
      (omega (arith, ih.0), ih.1 ∙ ap (λ k. s.nonce_prefix ++ to_be32 k) (omega arith))
]

-- A nonce is never used again: two calls of `next_nonce` in the life of one stream, each successful,
-- give different nonces, however many calls lie between them.
pub nonces_differ :
    (i j : ℕ) (s : Stream) (a b : List ℕ)
    → i < j
    → nonce_after i s ≡ ok a
    → nonce_after j s ≡ ok b
    → a ≢ b
nonces_differ i j s a b before first second same =
    let (below, is_a) = nonce_after-ok i s a first in
    let (below', is_b) = nonce_after-ok j s b second in
    let counters =
      cancel_left s.nonce_prefix (to_be32 (s.write_counter + i)) (to_be32 (s.write_counter + j))
        (sym is_a ∙ same ∙ is_b) in
    omega (arith, to_be32-injective (s.write_counter + i) (s.write_counter + j) counters)

-- Once the counter has passed 2^32 - 1 every call fails.
pub nonce_after-exhausted :
    (n : ℕ) (s : Stream)
    → 4_294_967_296 ≤ s.write_counter + n
    → s.write_counter ≤ 4_294_967_296
    → nonce_after n s ≡ err counter_exhausted
unfolding nonce_after next_nonce
nonce_after-exhausted zero s used all =
    let full : ltb 4_294_967_295 s.write_counter ≡ true = ground arith in rw full refl
nonce_after-exhausted (suc n) s used all = elim (Bool-cases (ltb 4_294_967_295 s.write_counter)) [
  | inl full ↦ rw full refl
  | inr unused ↦ rw unused (
      nonce_after-exhausted n (record s { write_counter = s.write_counter + 1 }) (omega arith)
        (ground arith))
]
