-- ===== src/Net/Crypto/Polls/Reads.antt =====
-- What a poll of a reader of rust_frp_net/src/crypto.rs does to the text that is still to be delivered.
use rust_frp.Common.{
  ℕ, ◌≤◌, some, ◌≡◌, sym, ◌∙◌, ap, subst, List, [], ◌∷◌, ◌++◌, length, drop, All, arith,
}
use mathlib.Core.List.{append_assoc}
use rust_frp.Net.Crypto.{Aead, Stream, StreamError, ReadStep, Poll, pending}
use rust_frp.Net.Crypto.Polls.{answered, copy_out, Reading}
use rust_frp.Net.Crypto.Polls.Sealing.{Sealed, IsValid, bytes_of, text_of}
use rust_frp.Net.Crypto.Polls.Reader.{
  wire, unread, delivered, copy_out-delivered, FromBelow, FailsBelow, IsReader,
}

module _ (aead : Aead) (key : List ℕ) where
  -- A poll delivers the next part of the text; if it waits although all bytes are there, nothing is
  -- left of the text; and it fails only if the connection does.
  pub record Reads (r : Stream) (later : List ℕ) (fs : List Sealed) (x : Reading aead)
      : Type 0 where
    pub frames : List Sealed
    pub reader : IsReader aead key x.0.after (wire x.1 ++ later) frames
    pub delivers :
        unread r ++ text_of fs ≡ delivered x.0.answer ++ (unread x.0.after ++ text_of frames)
    pub complete :
        x.0.answer ≡ pending → x.1 ≡ [] → later ≡ [] → unread x.0.after ++ text_of frames ≡ []
    pub failure : FailsBelow x.0.answer

  pub copied-Reads :
      (r o : Stream) (from room : ℕ) (later : List ℕ) (fs gs : List Sealed)
      (answers : List ReadStep)
      → from ≤ length o.in_plain
      → o.read_key ≡ key
      → o.rx_buf ++ (wire answers ++ later) ≡ bytes_of gs
      → ((e : StreamError) → o.sticky_err ≡ some e → FromBelow e)
      → All (IsValid aead key) gs
      → unread r ++ text_of fs ≡ drop from o.in_plain ++ text_of gs
      → Reads r later fs (copy_out from room o, answers)
  copied-Reads r o from room later fs gs answers within own_key in_order fair valid same =
      let (parts, tidy, key_kept, rx_kept, err_kept) = copy_out-delivered from room o within in
      let p = copy_out from room o in
      record {
        frames = gs;
        reader = record {
          own_key = key_kept ∙ own_key;
          valid = valid;
          in_order = ap (λ (l : List ℕ). l ++ (wire answers ++ later)) rx_kept ∙ in_order;
          tidy = tidy;
          fair = λ e found. fair e (sym err_kept ∙ found);
        };
        delivers =
            same
            ∙ ap (λ (l : List ℕ). l ++ text_of gs) parts
            ∙ append_assoc (delivered p.answer) (unread p.after) (text_of gs);
        complete = λ waiting over none_later. absurd (ground (arith, waiting));
        failure = tt;
      }

  -- A poll that delivers nothing and leaves the stream, but perhaps for its sticky error.
  pub stopped-Reads :
      (r s : Stream) (later : List ℕ) (fs : List Sealed) (answers : List ReadStep)
      (p : Poll (List ℕ))
      → IsReader aead key s (wire answers ++ later) fs
      → s.in_plain ≡ r.in_plain
      → s.in_pos ≡ r.in_pos
      → delivered p ≡ []
      → FailsBelow p
      → (p ≡ pending → later ≡ [] → answers ≡ [] → unread s ++ text_of fs ≡ [])
      → Reads r later fs (answered s p, answers)
  stopped-Reads r s later fs answers p v same_plain same_pos nothing failure complete = record {
    frames = fs;
    reader = v;
    delivers =
        ap (λ n. drop n r.in_plain ++ text_of fs) (sym same_pos)
        ∙ ap (λ (l : List ℕ). drop s.in_pos l ++ text_of fs) (sym same_plain)
        ∙ ap (λ (l : List ℕ). l ++ (unread s ++ text_of fs)) (sym nothing);
    complete = λ waiting over none_later. complete waiting none_later over;
    failure = failure;
  }

  pub stuck-IsReader :
      (r : Stream) (coming : List ℕ) (fs : List Sealed) (e : StreamError)
      → FromBelow e
      → IsReader aead key r coming fs
      → IsReader aead key (record r { sticky_err = some e }) coming fs
  stuck-IsReader r coming fs e below v = record {
    own_key = v.own_key;
    valid = v.valid;
    in_order = v.in_order;
    tidy = v.tidy;
    fair = λ e' same. subst FromBelow (ground (arith, same)) below;
  }

  pub grown-IsReader :
      (r : Stream) (bytes coming : List ℕ) (fs : List Sealed)
      → IsReader aead key r (bytes ++ coming) fs
      → IsReader aead key (record r { rx_buf = r.rx_buf ++ bytes }) coming fs
  grown-IsReader r bytes coming fs v = record {
    own_key = v.own_key;
    valid = v.valid;
    in_order = append_assoc r.rx_buf bytes coming ∙ v.in_order;
    tidy = v.tidy;
    fair = v.fair;
  }

  pub grown-Reads :
      (r : Stream) (bytes later : List ℕ) (fs : List Sealed) (x : Reading aead)
      → Reads (record r { rx_buf = r.rx_buf ++ bytes }) later fs x
      → Reads r later fs x
  grown-Reads r bytes later fs x v = record {
    frames = v.frames;
    reader = v.reader;
    delivers = v.delivers;
    complete = v.complete;
    failure = v.failure;
  }

  pub opened-Reads :
      (r : Stream) (room : ℕ) (later : List ℕ) (fs gs : List Sealed) (f : Sealed) (rest : List ℕ)
      (answers : List ReadStep)
      → IsReader aead key r (wire answers ++ later) fs
      → r.in_plain ≡ []
      → r.in_pos ≡ 0
      → fs ≡ f ∷ gs
      → All (IsValid aead key) gs
      → rest ++ (wire answers ++ later) ≡ bytes_of gs
      → Reads r later fs
          (copy_out 0 room (record r { in_plain = r.in_plain ++ f.plain; rx_buf = rest }), answers)
  opened-Reads r room later fs gs f rest answers v empty start split valid in_order =
      copied-Reads r (record r { in_plain = r.in_plain ++ f.plain; rx_buf = rest }) 0 room later fs
        gs answers (omega arith) v.own_key in_order v.fair valid
        (ap (λ n. drop n r.in_plain ++ text_of fs) start
          ∙ ap (λ (l : List Sealed). r.in_plain ++ text_of l) split
          ∙ sym (append_assoc r.in_plain f.plain (text_of gs)))

  -- Nothing is left for a reader that has opened everything and waits for no bytes.
  pub waiting_complete :
      (r : Stream) (coming : List ℕ) (fs : List Sealed)
      → r.in_plain ≡ []
      → r.in_pos ≡ 0
      → (coming ≡ [] → fs ≡ [])
      → coming ≡ []
      → unread r ++ text_of fs ≡ []
  waiting_complete r coming fs empty start none_left over =
      ap (λ n. drop n r.in_plain ++ text_of fs) start
      ∙ ap (λ (l : List ℕ). l ++ text_of fs) empty
      ∙ ap text_of (none_left over)
