-- ===== src/Net/WireV2/Keys.antt =====
-- The keys that both sides of rust_frp_net/src/wire_v2.rs derive. SHA-256 and HMAC-SHA-256 are the
-- crate `ring`, so they are parameters.
use rust_frp.Common.{ℕ, zero, suc, ◌+◌, ◌%◌, ltb, List, [], ◌∷◌, ◌++◌, length, take, if◌then◌else◌}
use rust_frp.Net.WireV2.Frame.{to_be64}

pub record Digests : Type 0 where
  pub sha256 : List ℕ → List ℕ
  pub hmac_sha256 : List ℕ → List ℕ → List ℕ

abbrev pub aead_key_size : ℕ
aead_key_size = 32

abbrev pub transcript_label : List ℕ
transcript_label =
    b'f' ∷ b'r' ∷ b'p' ∷ b' ' ∷ b'w' ∷ b'i' ∷ b'r' ∷ b'e' ∷ b' ' ∷ b'v' ∷ b'2' ∷ b' ' ∷ b'c' ∷ b'r'
    ∷ b'y' ∷ b'p' ∷ b't' ∷ b'o' ∷ b' ' ∷ b't' ∷ b'r' ∷ b'a' ∷ b'n' ∷ b's' ∷ b'c' ∷ b'r' ∷ b'i'
    ∷ b'p' ∷ b't' ∷ []

abbrev pub client_label : List ℕ
client_label =
    b'c' ∷ b'l' ∷ b'i' ∷ b'e' ∷ b'n' ∷ b't' ∷ b' ' ∷ b'h' ∷ b'e' ∷ b'l' ∷ b'l' ∷ b'o' ∷ []

abbrev pub server_label : List ℕ
server_label =
    b's' ∷ b'e' ∷ b'r' ∷ b'v' ∷ b'e' ∷ b'r' ∷ b' ' ∷ b'h' ∷ b'e' ∷ b'l' ∷ b'l' ∷ b'o' ∷ []

abbrev pub info_prefix : List ℕ
info_prefix =
    b'f' ∷ b'r' ∷ b'p' ∷ b' ' ∷ b'w' ∷ b'i' ∷ b'r' ∷ b'e' ∷ b' ' ∷ b'v' ∷ b'2' ∷ b' ' ∷ b'c' ∷ b'o'
    ∷ b'n' ∷ b't' ∷ b'r' ∷ b'o' ∷ b'l' ∷ b' ' ∷ b'a' ∷ b'e' ∷ b'a' ∷ b'd' ∷ []

abbrev pub client_to_server : List ℕ
client_to_server =
    b'c' ∷ b'l' ∷ b'i' ∷ b'e' ∷ b'n' ∷ b't' ∷ b'-' ∷ b't' ∷ b'o' ∷ b'-' ∷ b's' ∷ b'e' ∷ b'r' ∷ b'v'
    ∷ b'e' ∷ b'r' ∷ []

abbrev pub server_to_client : List ℕ
server_to_client =
    b's' ∷ b'e' ∷ b'r' ∷ b'v' ∷ b'e' ∷ b'r' ∷ b'-' ∷ b't' ∷ b'o' ∷ b'-' ∷ b'c' ∷ b'l' ∷ b'i' ∷ b'e'
    ∷ b'n' ∷ b't' ∷ []

pub data AeadRole : Type 0 where
  client server : AeadRole

pub record CryptoContext : Type 0 where
  pub algorithm : List ℕ
  pub transcript_hash : List ℕ

-- The bytes that `write_transcript_part` feeds to the hash.
unfoldable pub transcript_part : List ℕ → List ℕ → List ℕ
transcript_part label payload = 0 ∷ label ++ 0 ∷ to_be64 (length payload) ++ payload

unfoldable pub transcript : List ℕ → List ℕ → List ℕ
unfolding transcript_part
transcript client_hello server_hello =
    transcript_label
    ++ transcript_part client_label client_hello
    ++ transcript_part server_label server_hello

module _ (d : Digests) where
  unfoldable pub hash_crypto_transcript : List ℕ → List ℕ → List ℕ
  unfolding transcript
  hash_crypto_transcript client_hello server_hello = d.sha256 (transcript client_hello server_hello)

  unfoldable pub new_crypto_context : List ℕ → List ℕ → List ℕ → CryptoContext
  unfolding hash_crypto_transcript
  new_crypto_context algorithm client_hello server_hello = record {
    algorithm = algorithm;
    transcript_hash = hash_crypto_transcript client_hello server_hello;
  }

  -- The loop of `hkdf_sha256`, on fuel: it ends once `okm` is long enough.
  unfoldable pub expand : ℕ → List ℕ → List ℕ → ℕ → List ℕ → ℕ → List ℕ → List ℕ
  expand zero prk info out_len prev counter okm = okm
  expand (suc fuel) prk info out_len prev counter okm =
      let next = d.hmac_sha256 prk (prev ++ info ++ counter ∷ []) in
      let rest = expand fuel prk info out_len next ((counter + 1) % 256) (okm ++ next) in
      if ltb (length okm) out_len then rest else okm

  unfoldable pub hkdf_sha256 : List ℕ → List ℕ → List ℕ → ℕ → List ℕ
  unfolding expand
  hkdf_sha256 ikm salt info out_len =
      take out_len (expand (suc out_len) (d.hmac_sha256 salt ikm) info out_len [] 1 [])

  unfoldable pub derive_control_key : List ℕ → List ℕ → List ℕ → List ℕ → List ℕ
  unfolding hkdf_sha256
  derive_control_key base_key algorithm hash direction =
      hkdf_sha256 base_key hash (info_prefix ++ b' ' ∷ algorithm ++ b' ' ∷ direction) aead_key_size

  unfoldable pub derive_control_keys : List ℕ → List ℕ → List ℕ → List ℕ × List ℕ
  unfolding derive_control_key
  derive_control_keys base_key algorithm hash = (
    derive_control_key base_key algorithm hash client_to_server,
    derive_control_key base_key algorithm hash server_to_client,
  )

  -- The read key and the write key of a side.
  unfoldable pub control_keys_for_role : List ℕ → List ℕ → List ℕ → AeadRole → List ℕ × List ℕ
  unfolding derive_control_keys
  control_keys_for_role base_key algorithm hash client =
      let (c2s, s2c) = derive_control_keys base_key algorithm hash in (s2c, c2s)
  control_keys_for_role base_key algorithm hash server =
      let (c2s, s2c) = derive_control_keys base_key algorithm hash in (c2s, s2c)
