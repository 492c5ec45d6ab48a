-- ===== src/Net/Crypto/Polls/Sealing.antt =====
-- The frames that the loop of poll_write in rust_frp_net/src/crypto.rs seals, and the text that they carry.
use rust_frp.Common.{
  ℕ, ◌+◌, ◌≤◌, none, some, ◌≡◌, refl, sym, ◌∙◌, ap, List, [], ◌∷◌, ◌++◌, length, All, arith,
  length-append,
}
use mathlib.Core.List.{append_assoc, append-nil}
use rust_frp.Net.WireV2.Frame.{to_be32}
use rust_frp.Net.Crypto.{Aead, Stream, nonce_len, tag_len, max_plaintext, seal_chunks}
use rust_frp.Net.Crypto.Frames.{frame, Opens}
use rust_frp.Net.Crypto.Transfer.{Seals, Fits, concat, seal_into_out_buf-ok}

-- A frame with what it carries.
pub record Sealed : Type 0 where
  pub nonce : List ℕ
  pub body : List ℕ
  pub plain : List ℕ

abbrev pub bytes_of : List Sealed → List ℕ
bytes_of [] = []
bytes_of (f ∷ fs) = frame f.nonce f.body ++ bytes_of fs

abbrev pub text_of : List Sealed → List ℕ
text_of [] = []
text_of (f ∷ fs) = f.plain ++ text_of fs

pub bytes_of-append : (fs gs : List Sealed) → bytes_of (fs ++ gs) ≡ bytes_of fs ++ bytes_of gs
bytes_of-append [] gs = refl
bytes_of-append (f ∷ fs) gs =
    ap (λ (l : List ℕ). frame f.nonce f.body ++ l) (bytes_of-append fs gs)
    ∙ sym (append_assoc (frame f.nonce f.body) (bytes_of fs) (bytes_of gs))

pub text_of-append : (fs gs : List Sealed) → text_of (fs ++ gs) ≡ text_of fs ++ text_of gs
text_of-append [] gs = refl
text_of-append (f ∷ fs) gs =
    ap (λ (l : List ℕ). f.plain ++ l) (text_of-append fs gs)
    ∙ sym (append_assoc f.plain (text_of fs) (text_of gs))

-- A frame that opens under the key.
abbrev pub IsValid : Aead → List ℕ → Sealed → Type 0
IsValid aead key f =
    (length f.nonce ≡ nonce_len)
    × (length f.body ≡ length f.plain + tag_len)
    × (length f.plain ≤ max_plaintext)
    × (aead.open_in_place key f.nonce f.body ≡ some f.plain)

module _ (aead : Aead) (opens : Opens aead) (seals : Seals aead) where
  -- The frames that the chunks are sealed into.
  abbrev pub SealedInto : Stream → List (List ℕ) → List Sealed → Type 0
  SealedInto w cs fs =
      All (IsValid aead w.write_key) fs
      × (text_of fs ≡ concat aead cs)
      × (seal_chunks aead cs w ≡ (
        record w {
          write_counter = w.write_counter + length cs;
          out_buf = w.out_buf ++ bytes_of fs;
        },
        none,
      ))

  pub seal_chunks-SealedInto :
      (w : Stream) (cs : List (List ℕ))
      → length w.nonce_prefix ≡ 8
      → All (Fits aead) cs
      → w.write_counter + length cs ≤ 4_294_967_296
      → (fs : List Sealed) × SealedInto w cs fs
  unfolding seal_chunks
  seal_chunks-SealedInto w [] prefix fits room = (
    [],
    (
      tt,
      refl,
      ap (λ (l : List ℕ). (record w { write_counter = w.write_counter; out_buf = l }, none))
            (sym (append-nil w.out_buf))
          ∙ ap (λ n. (record w { write_counter = n; out_buf = w.out_buf ++ [] }, none))
              (omega arith),
    ),
  )
  seal_chunks-SealedInto w (c ∷ cs) prefix (fit, fits) room =
      let nonce = w.nonce_prefix ++ to_be32 w.write_counter in
      let (body, sealed_to) = seals w.write_key nonce c fit in
      let (opens_to, tagged) = opens w.write_key nonce c body sealed_to in
      let once = seal_into_out_buf-ok aead w c body (omega (arith, room)) sealed_to in
      let w' : Stream = record w {
        write_counter = w.write_counter + 1;
        out_buf = w.out_buf ++ frame nonce body;
      } in
      let (fs, (valid, texts, rest)) =
        seal_chunks-SealedInto w' cs prefix fits (omega (arith, room)) in
      let size : length nonce ≡ nonce_len =
        omega (arith, prefix, length-append w.nonce_prefix (to_be32 w.write_counter)) in
      let f : Sealed = record { nonce = nonce; body = body; plain = c } in
      (
        f ∷ fs,
        (
          ((size, tagged, fit, opens_to), valid),
          ap (λ (l : List ℕ). c ++ l) texts,
          rw once (
              rest
              ∙ ap
                  (λ (l : List ℕ). (
                    record w { write_counter = w.write_counter + 1 + length cs; out_buf = l },
                    none,
                  ))
                  (append_assoc w.out_buf (frame nonce body) (bytes_of fs))
              ∙ ap
                  (λ n. (
                    record w {
                      write_counter = n;
                      out_buf = w.out_buf ++ (frame nonce body ++ bytes_of fs);
                    },
                    none,
                  ))
                  (omega arith)),
        ),
      )
