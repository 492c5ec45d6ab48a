-- ===== src/Net/Crypto/Polls/Written.antt =====
-- Whatever the connection below accepts, poll_write and poll_flush of rust_frp_net/src/crypto.rs send the
-- frames of what they took, in order.
use rust_frp.Common.{
  ℕ, ◌+◌, ◌≤◌, Option, none, some, ◌≡◌, refl, sym, ◌∙◌, ap, subst, List, [], ◌++◌, length, drop,
  All, All-append, arith,
}
use mathlib.Core.List.{append_assoc, append-nil}
use rust_frp.Net.Crypto.{
  Aead, Stream, StreamError, Poll, ready, pending, failed, chunks, seal_chunks,
}
use rust_frp.Net.Crypto.Frames.{Opens}
use rust_frp.Net.Crypto.Transfer.{Seals, concat-chunks, chunks-Fits}
use rust_frp.Net.Crypto.Polls.{
  Polled, answered, after_sending, try_drain_out, unless_failed, Below, written, write_after,
  poll_write,
}
use rust_frp.Net.Crypto.Polls.Drains.{Drains, IsReady, unsent, try_drain_out-Drains}
use rust_frp.Net.Crypto.Polls.Sealing.{
  Sealed, IsValid, bytes_of, text_of, bytes_of-append, seal_chunks-SealedInto,
}

-- What a poll took of the text it was given.
abbrev pub taken : List ℕ → Poll ℕ → List ℕ
taken text (ready n) = text
taken text pending = []
taken text (failed e) = []

module _ (aead : Aead) (opens : Opens aead) (seals : Seals aead) where
  -- A stream that has sent some bytes, and the frames that these and the waiting bytes are.
  pub record IsWritten (key : List ℕ) (s : Stream) (sent : List ℕ) (fs : List Sealed) : Type 0 where
    pub own_key : s.write_key ≡ key
    pub prefix : length s.nonce_prefix ≡ 8
    pub valid : All (IsValid aead key) fs
    pub in_order : sent ++ unsent s ≡ bytes_of fs

  pub Drains-IsWritten :
      {A : Type 0} (key : List ℕ) (s : Stream) (sent : List ℕ) (fs : List Sealed) (p : Polled A)
      → IsWritten key s sent fs
      → Drains s p
      → IsWritten key p.after (sent ++ p.sent) fs
  Drains-IsWritten key s sent fs p v d = record {
    own_key = d.key ∙ v.own_key;
    prefix = ap length d.prefix ∙ v.prefix;
    valid = v.valid;
    in_order =
        append_assoc sent p.sent (unsent p.after)
        ∙ ap (λ (l : List ℕ). sent ++ l) d.sends
        ∙ v.in_order;
  }

  -- A poll adds frames for what it took, and no more nonces than chunks.
  abbrev pub Adds : List ℕ → Stream → List ℕ → List Sealed → List ℕ → Polled ℕ → Type 0
  Adds key s sent fs text p =
      (gs : List Sealed) × IsWritten key p.after (sent ++ p.sent) (fs ++ gs)
      × (text_of gs ≡ taken text p.answer)
      × (p.after.write_counter ≤ s.write_counter + length (chunks (length text) text))

  nothing_taken :
      (key : List ℕ) (s s' : Stream) (sent more : List ℕ) (fs : List Sealed) (text : List ℕ)
      (p : Poll ℕ)
      → IsWritten key s' (sent ++ more) fs
      → s'.write_counter ≡ s.write_counter
      → taken text p ≡ []
      → Adds key s sent fs text (after_sending more (answered s' p))
  nothing_taken key s s' sent more fs text p v same none_taken = (
    [],
    subst (λ l. IsWritten key s' (sent ++ l) (fs ++ [])) (sym (append-nil more))
        (subst (IsWritten key s' (sent ++ more)) (sym (append-nil fs)) v),
    sym none_taken,
    omega (arith, same),
  )

  written-Adds :
      (key : List ℕ) (below : Below) (text : List ℕ) (s s1 : Stream) (sent more : List ℕ)
      (fs : List Sealed)
      → IsWritten key s1 (sent ++ more) fs
      → s1.write_counter ≡ s.write_counter
      → s1.out_buf ≡ []
      → s1.out_pos ≡ 0
      → s.write_counter + length (chunks (length text) text) ≤ 4_294_967_296
      → Adds key s sent fs text (
          after_sending more
            (written aead below text (seal_chunks aead (chunks (length text) text) s1)))
  written-Adds key below text s s1 sent more fs v same empty start room =
      let cs = chunks (length text) text in
      let (gs, (valid, texts, sealed)) =
        seal_chunks-SealedInto aead opens seals s1 cs v.prefix (chunks-Fits aead (length text) text)
          (omega (arith, same, room)) in
      let s2 : Stream = record s1 {
        write_counter = s1.write_counter + length cs;
        out_buf = s1.out_buf ++ bytes_of gs;
      } in
      let waiting : drop s1.out_pos (s1.out_buf ++ bytes_of gs) ≡ bytes_of gs =
        rw (start, empty) refl in
      let sent_all : sent ++ more ≡ bytes_of fs =
        sym (append-nil (sent ++ more))
        ∙ ap (λ (l : List ℕ). (sent ++ more) ++ l) (sym (ap (λ n. drop n s1.out_buf) start ∙ empty))
        ∙ v.in_order in
      let v2 : IsWritten key s2 (sent ++ more) (fs ++ gs) = record {
        own_key = v.own_key;
        prefix = v.prefix;
        valid =
            All-append (IsValid aead key) fs gs v.valid
              (subst (λ k. All (IsValid aead k) gs) v.own_key valid);
        in_order =
            ap (λ (l : List ℕ). (sent ++ more) ++ l) waiting
            ∙ ap (λ (l : List ℕ). l ++ bytes_of gs) sent_all
            ∙ sym (bytes_of-append fs gs);
      } in
      let drained = try_drain_out below.last_flush below.last_answers s2 in
      let d = try_drain_out-Drains below.last_flush below.last_answers s2 in
      let v3 = Drains-IsWritten key s2 (sent ++ more) (fs ++ gs) drained v2 d in
      rw sealed (
        gs,
        subst (λ l. IsWritten key drained.after l (fs ++ gs)) (append_assoc sent more drained.sent)
            v3,
        texts ∙ concat-chunks aead (length text) text (omega arith),
        omega (arith, d.counter, same),
      )

  write_after-Adds :
      (key : List ℕ) (below : Below) (text : List ℕ) (s s1 : Stream) (sent more : List ℕ)
      (fs : List Sealed) (p : Poll (Unit {0}))
      → IsWritten key s1 (sent ++ more) fs
      → s1.write_counter ≡ s.write_counter
      → (IsReady p → (s1.out_buf ≡ []) × (s1.out_pos ≡ 0))
      → s.write_counter + length (chunks (length text) text) ≤ 4_294_967_296
      → Adds key s sent fs text (after_sending more (write_after aead below text s1 p))
  write_after-Adds key below text s s1 sent more fs (ready u) v same emptied_by room =
      let (empty, start) = emptied_by tt in
      written-Adds key below text s s1 sent more fs v same empty start room
  write_after-Adds key below text s s1 sent more fs pending v same emptied_by room =
      nothing_taken key s s1 sent more fs text pending v same refl
  write_after-Adds key below text s s1 sent more fs (failed e) v same emptied_by room =
      nothing_taken key s s1 sent more fs text (failed e) v same refl

  unless_failed-Adds :
      (key : List ℕ) (text : List ℕ) (s : Stream) (sent : List ℕ) (fs : List Sealed)
      (o : Option StreamError) (p : Polled ℕ)
      → IsWritten key s sent fs
      → Adds key s sent fs text p
      → Adds key s sent fs text (unless_failed s o p)
  unless_failed-Adds key text s sent fs (some e) p v adds =
      nothing_taken key s s sent [] fs text (failed e)
        (subst (λ l. IsWritten key s l fs) (sym (append-nil sent)) v) refl refl
  unless_failed-Adds key text s sent fs none p v adds = adds

  pub poll_write-Adds :
      (key : List ℕ) (below : Below) (text : List ℕ) (s : Stream) (sent : List ℕ) (fs : List Sealed)
      → IsWritten key s sent fs
      → s.write_counter + length (chunks (length text) text) ≤ 4_294_967_296
      → Adds key s sent fs text (poll_write aead below text s)
  unfolding poll_write
  poll_write-Adds key below text s sent fs v room =
      let drained = try_drain_out below.first_flush below.first_answers s in
      let d = try_drain_out-Drains below.first_flush below.first_answers s in
      unless_failed-Adds key text s sent fs s.sticky_err
        (after_sending drained.sent (write_after aead below text drained.after drained.answer)) v
        (write_after-Adds key below text s drained.after sent drained.sent fs drained.answer
          (Drains-IsWritten key s sent fs drained v d) d.counter d.empties room)
