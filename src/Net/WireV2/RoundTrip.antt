-- ===== src/Net/WireV2/RoundTrip.antt =====
-- A frame of rust_frp_net/src/wire_v2.rs that is written and read back, and the reverse.
use rust_frp.Common.{
  ℕ, zero, suc, ◌/◌, ◌%◌, ◌≤◌, ◌<◌, false, ok, Result-cases, ltb, ◌≡◌, refl, inl, inr, List, [],
  ◌∷◌, ◌++◌, length, All, arith,
}
use rust_frp.Net.WireV2.Frame.{
  Frame, max_payload, read_exact, to_be16, to_be32, from_be16, from_be32, read_payload, read_frame,
  write_frame,
}

abbrev pub Bytes : List ℕ → Type 0
Bytes = All λ (b : ℕ). b < 256

pub read_exact-append : (xs ys : List ℕ) → read_exact (length xs) (xs ++ ys) ≡ ok (xs, ys)
unfolding read_exact
read_exact-append [] ys = refl
read_exact-append (x ∷ xs) ys = rw (read_exact-append xs ys) refl

pub read_exact-ok :
    (n : ℕ) (bytes got rest : List ℕ)
    → read_exact n bytes ≡ ok (got, rest)
    → (bytes ≡ got ++ rest) × (length got ≡ n)
unfolding read_exact
read_exact-ok zero bytes got rest h = ground arith
read_exact-ok (suc n) [] got rest h = absurd (ground arith)
read_exact-ok (suc n) (b ∷ bytes) got rest h = elim (Result-cases (read_exact n bytes)) [
  | inl ((got', rest'), found) ↦ let ih = read_exact-ok n bytes got' rest' found in ground arith
  | inr (e, failed) ↦ absurd (ground arith)
]

pub from_be16-to_be16 : (n : ℕ) → n < 65_536 → from_be16 (n / 256 % 256) (n % 256) ≡ n
from_be16-to_be16 n small = omega arith

pub from_be32-to_be32 :
    (n : ℕ)
    → n < 4_294_967_296
    → from_be32 (n / 16_777_216 % 256) (n / 65_536 % 256) (n / 256 % 256) (n % 256) ≡ n
from_be32-to_be32 n small = omega arith

read_payload-append :
    (type_id : ℕ) (payload rest : List ℕ)
    → length payload ≤ max_payload
    → read_payload type_id 0 (length payload) (payload ++ rest)
      ≡ ok (record { type_id = type_id; flags = 0; payload = payload }, rest)
unfolding read_payload
read_payload-append type_id payload rest small =
    let fits : ltb max_payload (length payload) ≡ false = ground arith in
    rw (fits, read_exact-append payload rest) refl

abbrev pub frame_bytes : Frame → List ℕ
frame_bytes f = to_be16 f.type_id ++ to_be16 f.flags ++ to_be32 (length f.payload) ++ f.payload

write_frame-ok :
    (f : Frame) (bytes : List ℕ)
    → write_frame f ≡ ok bytes
    → (f.flags ≡ 0) × (length f.payload ≤ max_payload) × (bytes ≡ frame_bytes f)
unfolding write_frame
write_frame-ok f bytes h = (ground arith, ground arith, ground arith)

pub read_frame-frame_bytes :
    (type_id : ℕ) (payload rest : List ℕ)
    → type_id < 65_536
    → length payload ≤ max_payload
    → let f : Frame = record { type_id = type_id; flags = 0; payload = payload } in
      read_frame (frame_bytes f ++ rest) ≡ ok (f, rest)
unfolding read_frame
read_frame-frame_bytes type_id payload rest small fits =
    rw (from_be16-to_be16 type_id small, from_be32-to_be32 (length payload) (omega arith))
      (read_payload-append type_id payload rest fits)

-- What was written is read back, and the rest of the input is left as it was.
pub read_frame-write_frame :
    (f : Frame) (bytes rest : List ℕ)
    → f.type_id < 65_536
    → write_frame f ≡ ok bytes
    → read_frame (bytes ++ rest) ≡ ok (f, rest)
read_frame-write_frame f bytes rest small written =
    let (no_flags, fits, same) = write_frame-ok f bytes written in
    rw (same, no_flags) (read_frame-frame_bytes f.type_id f.payload rest small fits)

pub write_frame-frame_bytes :
    (f : Frame) → f.flags ≡ 0 → length f.payload ≤ max_payload → write_frame f ≡ ok (frame_bytes f)
unfolding write_frame
write_frame-frame_bytes f no_flags small =
    let fits : ltb max_payload (length f.payload) ≡ false = ground arith in rw (no_flags, fits) refl

pub read_payload-ok :
    (type_id flags len : ℕ) (bytes rest : List ℕ) (f : Frame)
    → read_payload type_id flags len bytes ≡ ok (f, rest)
    → (f.type_id ≡ type_id)
      × (f.flags ≡ 0)
      × (flags ≡ 0)
      × (length f.payload ≡ len)
      × (len ≤ max_payload)
      × (bytes ≡ f.payload ++ rest)
unfolding read_payload
read_payload-ok type_id flags len bytes rest f h = elim (Result-cases (read_exact len bytes)) [
  | inl ((got, rest'), found) ↦ let both = read_exact-ok len bytes got rest' found in ground arith
  | inr (e, failed) ↦ absurd (ground arith)
]

-- What is read was written: the bytes that a frame was read from are those that `write_frame` gives
-- for it, then the rest.
write_frame-read_frame :
    (bytes rest : List ℕ) (f : Frame)
    → Bytes bytes
    → read_frame bytes ≡ ok (f, rest)
    → (written : List ℕ) × (write_frame f ≡ ok written) × (bytes ≡ written ++ rest)
unfolding read_frame
write_frame-read_frame (t1 ∷ t0 ∷ f1 ∷ f0 ∷ n3 ∷ n2 ∷ n1 ∷ n0 ∷ body) rest f v h =
    let (same_type, zero_flags, no_flags, same_len, small, same) =
      read_payload-ok (from_be16 t1 t0) (from_be16 f1 f0) (from_be32 n3 n2 n1 n0) body rest f h in
    let (b0, (b1, (b2, (b3, (b4, (b5, (b6, (b7, more)))))))) = v in
    let type1 : f.type_id / 256 % 256 ≡ t1 = omega arith in
    let type0 : f.type_id % 256 ≡ t0 = omega arith in
    let flag1 : f.flags / 256 % 256 ≡ f1 = omega arith in
    let flag0 : f.flags % 256 ≡ f0 = omega arith in
    let len3 : length f.payload / 16_777_216 % 256 ≡ n3 = omega arith in
    let len2 : length f.payload / 65_536 % 256 ≡ n2 = omega arith in
    let len1 : length f.payload / 256 % 256 ≡ n1 = omega arith in
    let len0 : length f.payload % 256 ≡ n0 = omega arith in
    (frame_bytes f, write_frame-frame_bytes f zero_flags (omega arith), cc)
write_frame-read_frame short rest f v h = absurd (ground arith)
