-- ===== src/Net/Crypto/Polls/Channel.antt =====
-- The two ends of the stream of rust_frp_net/src/crypto.rs over a connection that takes and gives bytes in
-- pieces of its own.
use rust_frp.Common.{
  ℕ, ◌+◌, ◌≤◌, ◌≡◌, refl, sym, ◌∙◌, ap, subst, List, [], ◌∷◌, ◌++◌, length, arith,
}
use mathlib.Core.List.{append_assoc, append-nil}
use rust_frp.Net.Crypto.{Aead, Stream, Wrote, ReadStep, Poll, ready, pending, failed, chunks}
use rust_frp.Net.Crypto.Frames.{Opens}
use rust_frp.Net.Crypto.Transfer.{Seals}
use rust_frp.Net.Crypto.Polls.{
  Polled, Below, poll_write, poll_flush, shut_after, poll_shutdown, poll_read,
}
use rust_frp.Net.Crypto.Polls.Drains.{Drains, IsReady, poll_flush-Drains}
use rust_frp.Net.Crypto.Polls.Sealing.{Sealed, text_of, text_of-append}
use rust_frp.Net.Crypto.Polls.Written.{IsWritten, Drains-IsWritten, taken, poll_write-Adds}
use rust_frp.Net.Crypto.Polls.Reader.{wire, unread, delivered, IsReader}
use rust_frp.Net.Crypto.Polls.Delivered.{poll_read-Reads}

-- The polls of a writer, with the answers of the connection in each.
pub data WriteCall : Type 0 where
  writes : Below → List ℕ → WriteCall
  flushes : Poll (Unit {0}) → List Wrote → WriteCall
  shuts : Poll (Unit {0}) → Poll (Unit {0}) → List Wrote → WriteCall

shut_after-Drains :
    (s : Stream) (shutdown : Poll (Unit {0})) (p : Polled (Unit {0}))
    → Drains s p
    → Drains s (shut_after shutdown p)
shut_after-Drains s shutdown p d = shut p.answer refl
  where
    shut :
        (a : Poll (Unit {0}))
        → p.answer ≡ a
        → Drains s (shut_after shutdown (record p { answer = a }))
    shut (ready u) is_ready = record {
      key = d.key;
      prefix = d.prefix;
      counter = d.counter;
      sends = d.sends;
      empties = λ r. d.empties (subst IsReady (sym is_ready) tt);
    }
    shut pending is_pending = record {
      key = d.key;
      prefix = d.prefix;
      counter = d.counter;
      sends = d.sends;
      empties = λ r. absurd r;
    }
    shut (failed e) is_failed = record {
      key = d.key;
      prefix = d.prefix;
      counter = d.counter;
      sends = d.sends;
      empties = λ r. absurd r;
    }

poll_shutdown-Drains :
    (shutdown flush : Poll (Unit {0})) (answers : List Wrote) (s : Stream)
    → Drains s (poll_shutdown shutdown flush answers s)
unfolding poll_shutdown
poll_shutdown-Drains shutdown flush answers s =
    shut_after-Drains s shutdown (poll_flush flush answers s) (poll_flush-Drains flush answers s)

-- How many nonces the writes need.
abbrev pub nonces_for : List WriteCall → ℕ
nonces_for [] = 0
nonces_for (writes below text ∷ calls) = length (chunks (length text) text) + nonces_for calls
nonces_for (flushes flush answers ∷ calls) = nonces_for calls
nonces_for (shuts shutdown flush answers ∷ calls) = nonces_for calls

module _ (aead : Aead) where
  -- The stream after the polls, what was sent, and the text that poll_write took.
  unfoldable pub run_writes : Stream → List WriteCall → Stream × List ℕ × List ℕ
  unfolding poll_write poll_flush poll_shutdown
  run_writes s [] = (s, [], [])
  run_writes s (writes below text ∷ calls) =
      let p = poll_write aead below text s in
      let (after, sent, accepted) = run_writes p.after calls in
      (after, p.sent ++ sent, taken text p.answer ++ accepted)
  run_writes s (flushes flush answers ∷ calls) =
      let p = poll_flush flush answers s in
      let (after, sent, accepted) = run_writes p.after calls in (after, p.sent ++ sent, accepted)
  run_writes s (shuts shutdown flush answers ∷ calls) =
      let p = poll_shutdown shutdown flush answers s in
      let (after, sent, accepted) = run_writes p.after calls in (after, p.sent ++ sent, accepted)

  -- The stream after polls with room for so many bytes each, the answers that are left, and the text.
  unfoldable pub run_reads : List ℕ → List ReadStep → Stream → Stream × List ReadStep × List ℕ
  unfolding poll_read
  run_reads [] answers r = (r, answers, [])
  run_reads (room ∷ rooms) answers r =
      let (p, left) = poll_read aead room answers r in
      let (after, left', text) = run_reads rooms left p.after in
      (after, left', delivered p.answer ++ text)

  -- The text that was delivered is a beginning of one text; what is left is opened or still to come.
  pub run_reads-delivers :
      (key : List ℕ) (rooms : List ℕ) (answers : List ReadStep) (r : Stream) (later : List ℕ)
      (fs : List Sealed)
      → IsReader aead key r (wire answers ++ later) fs
      → let (after, left, text) = run_reads rooms answers r in
        (gs : List Sealed) × IsReader aead key after (wire left ++ later) gs
        × (unread r ++ text_of fs ≡ text ++ (unread after ++ text_of gs))
  unfolding run_reads
  run_reads-delivers key [] answers r later fs v = (fs, v, refl)
  run_reads-delivers key (room ∷ rooms) answers r later fs v =
      let (p, left) = poll_read aead room answers r in
      let reads = poll_read-Reads aead key room answers r later fs v in
      let (gs, reader, delivers) =
        run_reads-delivers key rooms left p.after later reads.frames reads.reader in
      let (after, left', text) = run_reads rooms left p.after in
      (
        gs,
        reader,
        reads.delivers
            ∙ ap (λ (l : List ℕ). delivered p.answer ++ l) delivers
            ∙ sym (append_assoc (delivered p.answer) text (unread after ++ text_of gs)),
      )

  module _ (opens : Opens aead) (seals : Seals aead) where
    drained-IsWritten :
        {A : Type 0} (key : List ℕ) (calls : List WriteCall) (s : Stream) (sent : List ℕ)
        (fs : List Sealed) (p : Polled A)
        → IsWritten aead opens seals key s sent fs
        → Drains s p
        → s.write_counter + nonces_for calls ≤ 4_294_967_296
        → IsWritten aead opens seals key p.after (sent ++ p.sent) fs
          × (p.after.write_counter + nonces_for calls ≤ 4_294_967_296)
    drained-IsWritten key calls s sent fs p v d room =
        (Drains-IsWritten aead opens seals key s sent fs p v d, omega (arith, d.counter, room))

    -- The bytes that were sent and those that wait are the frames of the text that was taken.
    pub run_writes-IsWritten :
        (key : List ℕ) (calls : List WriteCall) (s : Stream) (sent : List ℕ) (fs : List Sealed)
        → IsWritten aead opens seals key s sent fs
        → s.write_counter + nonces_for calls ≤ 4_294_967_296
        → let (after, more, accepted) = run_writes s calls in
          (gs : List Sealed) × IsWritten aead opens seals key after (sent ++ more) (fs ++ gs)
          × (text_of gs ≡ accepted)
    unfolding run_writes
    run_writes-IsWritten key [] s sent fs v room = (
      [],
      subst (λ l. IsWritten aead opens seals key s l (fs ++ [])) (sym (append-nil sent))
          (subst (IsWritten aead opens seals key s sent) (sym (append-nil fs)) v),
      refl,
    )
    run_writes-IsWritten key (writes below text ∷ calls) s sent fs v room =
        let p = poll_write aead below text s in
        let (gs, v1, texts, few) =
          poll_write-Adds aead opens seals key below text s sent fs v (omega (arith, room)) in
        let (hs, v2, more_texts) =
          run_writes-IsWritten key calls p.after (sent ++ p.sent) (fs ++ gs) v1
            (omega (arith, room, few)) in
        let (after, more, accepted) = run_writes p.after calls in
        (
          gs ++ hs,
          subst (λ l. IsWritten aead opens seals key after l (fs ++ (gs ++ hs)))
              (append_assoc sent p.sent more)
              (subst (IsWritten aead opens seals key after ((sent ++ p.sent) ++ more))
                (append_assoc fs gs hs) v2),
          text_of-append gs hs
              ∙ ap (λ (l : List ℕ). l ++ text_of hs) texts
              ∙ ap (λ (l : List ℕ). taken text p.answer ++ l) more_texts,
        )
    run_writes-IsWritten key (flushes flush answers ∷ calls) s sent fs v room =
        let p = poll_flush flush answers s in
        let (v1, room1) =
          drained-IsWritten key calls s sent fs p v (poll_flush-Drains flush answers s) room in
        let (gs, v2, texts) = run_writes-IsWritten key calls p.after (sent ++ p.sent) fs v1 room1 in
        let (after, more, accepted) = run_writes p.after calls in
        (
          gs,
          subst (λ l. IsWritten aead opens seals key after l (fs ++ gs))
              (append_assoc sent p.sent more) v2,
          texts,
        )
    run_writes-IsWritten key (shuts shutdown flush answers ∷ calls) s sent fs v room =
        let p = poll_shutdown shutdown flush answers s in
        let (v1, room1) =
          drained-IsWritten key calls s sent fs p v (poll_shutdown-Drains shutdown flush answers s)
            room in
        let (gs, v2, texts) = run_writes-IsWritten key calls p.after (sent ++ p.sent) fs v1 room1 in
        let (after, more, accepted) = run_writes p.after calls in
        (
          gs,
          subst (λ l. IsWritten aead opens seals key after l (fs ++ gs))
              (append_assoc sent p.sent more) v2,
          texts,
        )
