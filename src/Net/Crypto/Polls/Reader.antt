-- ===== src/Net/Crypto/Polls/Reader.antt =====
-- The bytes that a reader of rust_frp_net/src/crypto.rs gets, and whether they make up its next frame.
use rust_frp.Common.{
  ℕ, ◌+◌, ◌-◌, ◌≤◌, ◌<◌, min, some, true, false, ok, leb, ◌==◌, ◌≡◌, ◌⊎◌, refl, sym, ◌∙◌, ap, inl,
  inr, List, [], ◌∷◌, ◌++◌, length, take, drop, All, arith, Bool-cases, length-append, length-drop,
  take-append-drop, drop-drop, drop-beyond, append_split,
}
use rust_frp.Net.Crypto.{
  Aead, Stream, StreamError, ReadStep, got, read_pending, read_failed, Poll, ready, pending, failed,
  try_decrypt_frame, decrypt_buffer, inner_failed, mid_frame_eof,
}
use rust_frp.Net.Crypto.Frames.{frame, try_decrypt_frame-frame, try_decrypt_frame-prefix}
use rust_frp.Net.Crypto.Polls.{copy_out}
use rust_frp.Net.Crypto.Polls.Sealing.{Sealed, IsValid, bytes_of}

-- The bytes that a connection gives.
abbrev pub wire : List ReadStep → List ℕ
wire [] = []
wire (got bytes ∷ answers) = bytes ++ wire answers
wire (read_pending ∷ answers) = wire answers
wire (read_failed ∷ answers) = wire answers

-- The text that is opened and not yet delivered.
abbrev pub unread : Stream → List ℕ
unread r = drop r.in_pos r.in_plain

-- Nothing is left of a text that was delivered.
abbrev pub IsTidy : Stream → Type 0
IsTidy r = (r.in_pos < length r.in_plain) ⊎ ((r.in_plain ≡ []) × (r.in_pos ≡ 0))

-- What a poll delivers.
abbrev pub delivered : Poll (List ℕ) → List ℕ
delivered (ready bytes) = bytes
delivered pending = []
delivered (failed e) = []

pub copy_out-delivered :
    (from room : ℕ) (r : Stream)
    → from ≤ length r.in_plain
    → let p = copy_out from room r in
      (drop from r.in_plain ≡ delivered p.answer ++ unread p.after)
      × IsTidy p.after
      × (p.after.read_key ≡ r.read_key)
      × (p.after.rx_buf ≡ r.rx_buf)
      × (p.after.sticky_err ≡ r.sticky_err)
copy_out-delivered from room r within =
    let n = min room (length r.in_plain - from) in
    let parts : drop from r.in_plain ≡ take n (drop from r.in_plain) ++ drop (from + n) r.in_plain =
      sym (take-append-drop n (drop from r.in_plain))
      ∙ ap (λ (l : List ℕ). take n (drop from r.in_plain) ++ l)
          (sym (drop-drop from n r.in_plain)) in
    elim (Bool-cases ((from + n) == length r.in_plain)) [
      | inl all ↦ rw all (
        parts
            ∙ ap (λ (l : List ℕ). take n (drop from r.in_plain) ++ l)
                (drop-beyond (from + n) r.in_plain (ground arith)),
        inr (refl, refl),
        refl,
        refl,
        refl,
      )
      | inr some_left ↦ rw some_left (parts, inl (ground arith), refl, refl, refl)
    ]

-- The errors that are the connection's own.
abbrev pub FromBelow : StreamError → Type 0
FromBelow e = (e ≡ inner_failed) ⊎ (e ≡ mid_frame_eof)

abbrev pub FailsBelow : Poll (List ℕ) → Type 0
FailsBelow (failed e) = FromBelow e
FailsBelow pending = Unit
FailsBelow (ready bytes) = Unit

-- What the stream makes of the bytes so far.
module _ (aead : Aead) (key : List ℕ) where
  -- A reader that is to receive certain bytes, and the frames that all its bytes are.
  pub record IsReader (r : Stream) (coming : List ℕ) (fs : List Sealed) : Type 0 where
    pub own_key : r.read_key ≡ key
    pub valid : All (IsValid aead key) fs
    pub in_order : r.rx_buf ++ coming ≡ bytes_of fs
    pub tidy : IsTidy r
    pub fair : (e : StreamError) → r.sticky_err ≡ some e → FromBelow e

  -- The next frame is there, or the rest of it is still to come.
  pub data Next (r : Stream) (coming : List ℕ) (fs : List Sealed) : Type 0 where
    opens_one :
        (f : Sealed) (gs : List Sealed) (rest : List ℕ)
        → try_decrypt_frame aead r
          ≡ ok (true, record r { in_plain = r.in_plain ++ f.plain; rx_buf = rest })
        → fs ≡ f ∷ gs
        → All (IsValid aead key) gs
        → rest ++ coming ≡ bytes_of gs
        → Next r coming fs
    waits : try_decrypt_frame aead r ≡ ok (false, r) → (coming ≡ [] → fs ≡ []) → Next r coming fs

  no_bytes : (r : Stream) → r.rx_buf ≡ [] → try_decrypt_frame aead r ≡ ok (false, r)
  unfolding try_decrypt_frame
  no_bytes r empty = ap (decrypt_buffer aead r) empty

  empty_append : (xs ys : List ℕ) → xs ++ ys ≡ [] → xs ≡ []
  empty_append [] ys p = refl
  empty_append (x ∷ xs) ys p = absurd (ground (arith, p))

  pub next :
      (r : Stream) (coming : List ℕ) (fs : List Sealed) → IsReader r coming fs → Next r coming fs
  next r coming [] v = waits (no_bytes r (empty_append r.rx_buf coming v.in_order)) λ over. refl
  next r coming (f ∷ fs) v =
      let ((size, tagged, fit, opens_to), valid) = v.valid in
      let whole = frame f.nonce f.body in
      elim (Bool-cases (leb (length whole) (length r.rx_buf))) [
        | inl all ↦
            let (front, back) =
              append_split whole (bytes_of fs) r.rx_buf coming (sym v.in_order) (ground arith) in
            opens_one f fs (drop (length whole) r.rx_buf)
              (try_decrypt_frame-frame aead r f.nonce f.body f.plain (drop (length whole) r.rx_buf)
                size tagged fit (ap (λ k. aead.open_in_place k f.nonce f.body) v.own_key ∙ opens_to)
                front)
              refl valid (sym back)
        | inr part ↦
            let (front, back) =
              append_split r.rx_buf coming whole (bytes_of fs) v.in_order (ground arith) in
            let missing = drop (length r.rx_buf) whole in
            let some_missing : 1 ≤ length missing =
              ground (arith, length-drop (length r.rx_buf) whole) in
            waits
              (try_decrypt_frame-prefix aead r f.nonce f.body f.plain missing size tagged fit
                some_missing (sym front))
              λ over. absurd (
                omega (
                  arith,
                  some_missing,
                  length-append missing (bytes_of fs),
                  ap length (sym back ∙ over),
                ))
      ]
