-- ===== src/Net/WireV2/Derivation.antt =====
-- The key derivation of rust_frp_net/src/wire_v2.rs: the length of a key, and what the transcript
-- that is hashed says about the two hellos.
use rust_frp.Common.{
  ℕ, zero, suc, ◌+◌, ◌/◌, ◌%◌, ◌^◌, ◌≤◌, ◌<◌, ◌≡◌, refl, sym, ◌∙◌, ap, List, [], ◌∷◌, ◌++◌, length,
  take, drop, arith, length-append, length-take, take-append, drop-append,
}
use mathlib.Core.List.{append_assoc, append-nil}
use rust_frp.Net.WireV2.Frame.{to_be32, to_be64}
use rust_frp.Net.WireV2.Keys.{
  Digests, transcript_label, client_label, server_label, transcript_part, transcript, expand,
  hkdf_sha256, AeadRole, client, server, derive_control_key, derive_control_keys,
  control_keys_for_role, aead_key_size, info_prefix, client_to_server, server_to_client,
}

module _ (d : Digests) where
  -- An HMAC is never empty (that of `ring` has 32 bytes).
  abbrev pub GivesBytes : Type 0
  GivesBytes = (key text : List ℕ) → 1 ≤ length (d.hmac_sha256 key text)

  length-expand :
      (fuel : ℕ) (prk info : List ℕ) (out_len : ℕ) (prev : List ℕ) (counter : ℕ) (okm : List ℕ)
      → GivesBytes
      → out_len ≤ fuel + length okm
      → out_len ≤ length (expand d fuel prk info out_len prev counter okm)
  unfolding expand
  length-expand zero prk info out_len prev counter okm some_bytes enough = omega arith
  length-expand (suc fuel) prk info out_len prev counter okm some_bytes enough =
      let next = d.hmac_sha256 prk (prev ++ info ++ counter ∷ []) in
      let ih =
        length-expand fuel prk info out_len next ((counter + 1) % 256) (okm ++ next) some_bytes
          (omega (arith, length-append okm next, some_bytes prk (prev ++ info ++ counter ∷ []))) in
      ground arith

  length-hkdf_sha256 :
      (ikm salt info : List ℕ) (out_len : ℕ)
      → GivesBytes
      → length (hkdf_sha256 d ikm salt info out_len) ≡ out_len
  unfolding hkdf_sha256
  length-hkdf_sha256 ikm salt info out_len some_bytes =
      let prk = d.hmac_sha256 salt ikm in
      let long = length-expand (suc out_len) prk info out_len [] 1 [] some_bytes (omega arith) in
      omega (arith, length-take out_len (expand d (suc out_len) prk info out_len [] 1 []))

  length-derive_control_key :
      (base_key algorithm hash direction : List ℕ)
      → GivesBytes
      → length (derive_control_key d base_key algorithm hash direction) ≡ aead_key_size
  unfolding derive_control_key
  length-derive_control_key base_key algorithm hash direction some_bytes =
      length-hkdf_sha256 base_key hash (info_prefix ++ b' ' ∷ algorithm ++ b' ' ∷ direction)
        aead_key_size some_bytes

  -- The loop of `hkdf_sha256` ends, and both keys of either side are 32 bytes long, whatever the base
  -- key, the algorithm and the transcript are, if an HMAC is never empty.
  pub length-control_keys_for_role :
      (base_key algorithm hash : List ℕ) (role : AeadRole)
      → GivesBytes
      → let (r, w) = control_keys_for_role d base_key algorithm hash role in
        (length r ≡ aead_key_size) × (length w ≡ aead_key_size)
  unfolding control_keys_for_role derive_control_keys
  length-control_keys_for_role base_key algorithm hash client some_bytes = (
    length-derive_control_key base_key algorithm hash server_to_client some_bytes,
    length-derive_control_key base_key algorithm hash client_to_server some_bytes,
  )
  length-control_keys_for_role base_key algorithm hash server some_bytes = (
    length-derive_control_key base_key algorithm hash client_to_server some_bytes,
    length-derive_control_key base_key algorithm hash server_to_client some_bytes,
  )

pub cancel_left : (xs ys zs : List ℕ) → xs ++ ys ≡ xs ++ zs → ys ≡ zs
cancel_left xs ys zs h = sym (drop-append xs ys) ∙ ap (drop (length xs)) h ∙ drop-append xs zs

-- Two lists of one length in front of two others.
split_equal :
    (xs ys us vs : List ℕ) → length xs ≡ length us → xs ++ ys ≡ us ++ vs → (xs ≡ us) × (ys ≡ vs)
split_equal xs ys us vs same h = (
  sym (take-append xs ys)
      ∙ ap (take (length xs)) h
      ∙ ap (λ n. take n (us ++ vs)) same
      ∙ take-append us vs,
  sym (drop-append xs ys)
      ∙ ap (drop (length xs)) h
      ∙ ap (λ n. drop n (us ++ vs)) same
      ∙ drop-append us vs,
)

pub to_be32-injective : (n m : ℕ) → to_be32 n ≡ to_be32 m → n % 4_294_967_296 ≡ m % 4_294_967_296
to_be32-injective n m h =
    let byte3 : n / 16_777_216 % 256 ≡ m / 16_777_216 % 256 = ground arith in
    let byte2 : n / 65_536 % 256 ≡ m / 65_536 % 256 = ground arith in
    let byte1 : n / 256 % 256 ≡ m / 256 % 256 = ground arith in
    let byte0 : n % 256 ≡ m % 256 = ground arith in omega (arith, byte3, byte2, byte1, byte0)

to_be64-injective :
    (n m : ℕ) (xs ys : List ℕ)
    → n < 2 ^ 64
    → m < 2 ^ 64
    → to_be64 n ++ xs ≡ to_be64 m ++ ys
    → (n ≡ m) × (xs ≡ ys)
to_be64-injective n m xs ys small small' h =
    let (bytes, rest) = split_equal (to_be64 n) xs (to_be64 m) ys refl h in
    let high : to_be32 (n / 4_294_967_296) ≡ to_be32 (m / 4_294_967_296) = ground arith in
    let low : to_be32 n ≡ to_be32 m = ground arith in
    (
      omega (
        arith,
        to_be32-injective (n / 4_294_967_296) (m / 4_294_967_296) high,
        to_be32-injective n m low,
      ),
      rest,
    )

part_injective :
    (label p q rest rest' : List ℕ)
    → length p < 2 ^ 64
    → length q < 2 ^ 64
    → transcript_part label p ++ rest ≡ transcript_part label q ++ rest'
    → (p ≡ q) × (rest ≡ rest')
unfolding transcript_part
part_injective label p q rest rest' small small' h =
    let head : List ℕ → List ℕ = λ xs. 0 ∷ to_be64 (length xs) in
    let whole =
      sym (append_assoc (0 ∷ label) (head p) (p ++ rest))
      ∙ sym (append_assoc (0 ∷ label ++ head p) p rest)
      ∙ h
      ∙ append_assoc (0 ∷ label ++ head q) q rest'
      ∙ append_assoc (0 ∷ label) (head q) (q ++ rest') in
    let after_label =
      cancel_left (0 ∷ label) (head p ++ (p ++ rest)) (head q ++ (q ++ rest')) whole in
    let after_zero =
      cancel_left (0 ∷ []) (to_be64 (length p) ++ (p ++ rest)) (to_be64 (length q) ++ (q ++ rest'))
        after_label in
    let (same_length, body) =
      to_be64-injective (length p) (length q) (p ++ rest) (q ++ rest') small small' after_zero in
    split_equal p rest q rest' same_length body

-- No two pairs of hellos have one transcript: what is hashed for the keys determines both hellos, byte
-- for byte, if each is shorter than 2^64 bytes.
pub transcript_injective :
    (p q p' q' : List ℕ)
    → length p < 2 ^ 64
    → length q < 2 ^ 64
    → length p' < 2 ^ 64
    → length q' < 2 ^ 64
    → transcript p q ≡ transcript p' q'
    → (p ≡ p') × (q ≡ q')
unfolding transcript
transcript_injective p q p' q' small_p small_q small_p' small_q' h =
    let whole =
      sym (
        append_assoc transcript_label (transcript_part client_label p)
          (transcript_part server_label q))
      ∙ h
      ∙ append_assoc transcript_label (transcript_part client_label p')
          (transcript_part server_label q') in
    let parts = cancel_left transcript_label _ _ whole in
    let (same_p, rest) = part_injective client_label p p' _ _ small_p small_p' parts in
    let (same_q, none_left) = part_injective server_label q q' [] [] small_q small_q' (
      append-nil (transcript_part server_label q)
      ∙ rest
      ∙ sym (append-nil (transcript_part server_label q'))) in
    (same_p, same_q)
