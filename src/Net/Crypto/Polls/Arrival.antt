-- ===== src/Net/Crypto/Polls/Arrival.antt =====
-- What a writer of the stream of rust_frp_net/src/crypto.rs takes and what the reader at the other end delivers.
use rust_frp.Common.{
  ℕ, ◌+◌, ◌≤◌, Option, none, some, ◌≡◌, inr, refl, sym, ◌∙◌, ap, subst, List, [], ◌++◌, length,
  arith, drop, All,
}
use mathlib.Core.List.{append_assoc, append-nil}
use rust_frp.Net.Crypto.{Aead, Stream, StreamError, ReadStep, Poll, pending}
use rust_frp.Net.Crypto.Frames.{Opens}
use rust_frp.Net.Crypto.Transfer.{Seals}
use rust_frp.Net.Crypto.Polls.{poll_read}
use rust_frp.Net.Crypto.Polls.Drains.{unsent}
use rust_frp.Net.Crypto.Polls.Sealing.{Sealed, IsValid, bytes_of, text_of}
use rust_frp.Net.Crypto.Polls.Written.{IsWritten}
use rust_frp.Net.Crypto.Polls.Reader.{wire, unread, delivered, FromBelow, IsReader}
use rust_frp.Net.Crypto.Polls.Delivered.{poll_read-Reads}
use rust_frp.Net.Crypto.Polls.Channel.{
  WriteCall, nonces_for, run_writes, run_reads, run_reads-delivers, run_writes-IsWritten,
}

-- A stream as it is made.
pub record IsNew (s : Stream) : Type 0 where
  pub prefix : length s.nonce_prefix ≡ 8
  pub nothing_out : s.out_buf ≡ []
  pub start_out : s.out_pos ≡ 0
  pub nothing_in : s.rx_buf ≡ []
  pub nothing_read : s.in_plain ≡ []
  pub start_in : s.in_pos ≡ 0
  pub no_error : s.sticky_err ≡ none

-- A stream that fails, if at all, because the connection below it did.
abbrev pub OnlyBelow : Option StreamError → Type 0
OnlyBelow none = Unit
OnlyBelow (some e) = FromBelow e

OnlyBelow-all :
    (o : Option StreamError) → ((e : StreamError) → o ≡ some e → FromBelow e) → OnlyBelow o
OnlyBelow-all none h = tt
OnlyBelow-all (some e) h = h e refl

module _ (aead : Aead) (opens : Opens aead) (seals : Seals aead) (w r : Stream)
    (new_writer : IsNew w) (new_reader : IsNew r) (same_key : r.read_key ≡ w.write_key) where
  new-IsWritten : IsWritten aead opens seals w.write_key w [] []
  new-IsWritten = record {
    own_key = refl;
    prefix = new_writer.prefix;
    valid = tt;
    in_order = ap (λ n. drop n w.out_buf) new_writer.start_out ∙ new_writer.nothing_out;
  }

  new-IsReader :
      (coming : List ℕ) (fs : List Sealed)
      → All (IsValid aead w.write_key) fs
      → coming ≡ bytes_of fs
      → IsReader aead w.write_key r coming fs
  new-IsReader coming fs valid in_order = record {
    own_key = same_key;
    valid = valid;
    in_order = ap (λ (l : List ℕ). l ++ coming) new_reader.nothing_in ∙ in_order;
    tidy = inr (new_reader.nothing_read, new_reader.start_in);
    fair = λ e found. absurd (ground (arith, new_reader.no_error));
  }

  -- What a run of the two ends comes to: the reader has received the answers' bytes, `later` is still on
  -- its way, and `frames` are those of the text that is not yet delivered.
  record Arrived (writes : List WriteCall) (rooms : List ℕ) (answers : List ReadStep)
      (later : List ℕ) : Type 0 where
    frames : List Sealed
    reader :
        IsReader aead w.write_key
          (run_reads aead rooms answers r).0
          (wire (run_reads aead rooms answers r).1
            ++ (later ++ unsent (run_writes aead w writes).0))
          frames
    text :
        (run_writes aead w writes).2
        ≡ (run_reads aead rooms answers r).2
          ++ (unread (run_reads aead rooms answers r).0 ++ text_of frames)

  arrived :
      (writes : List WriteCall) (rooms : List ℕ) (answers : List ReadStep) (later : List ℕ)
      → w.write_counter + nonces_for writes ≤ 4_294_967_296
      → wire answers ++ later ≡ (run_writes aead w writes).1
      → Arrived writes rooms answers later
  arrived writes rooms answers later room on_wire =
      let (fs, written, texts) =
        run_writes-IsWritten aead opens seals w.write_key writes w [] [] new-IsWritten room in
      let (ended, sent, accepted) = run_writes aead w writes in
      let all_bytes : wire answers ++ (later ++ unsent ended) ≡ bytes_of fs =
        sym (append_assoc (wire answers) later (unsent ended))
        ∙ ap (λ (l : List ℕ). l ++ unsent ended) on_wire
        ∙ written.in_order in
      let (gs, reader, delivers) =
        run_reads-delivers aead w.write_key rooms answers r (later ++ unsent ended) fs
          (new-IsReader (wire answers ++ (later ++ unsent ended)) fs written.valid all_bytes) in
      record {
        frames = gs;
        reader = reader;
        text =
            sym texts
            ∙ ap (λ (l : List ℕ). l ++ text_of fs)
                (sym (ap (λ n. drop n r.in_plain) new_reader.start_in ∙ new_reader.nothing_read))
            ∙ delivers;
      }

  -- However the connection cuts and delays the bytes, the reader gets what the writer took, in order:
  -- for a new writer and a new reader with the same key, a cipher that opens what it seals, and
  -- enough nonces, after any polls that write, flush and shut down, and any polls of the reader on a
  -- connection that has given it a beginning of the bytes that were sent, the text that was
  -- delivered is a beginning of the text that poll_write took, and the reader has no error but one
  -- of the connection.
  pub run_reads-run_writes :
      (writes : List WriteCall) (rooms : List ℕ) (answers : List ReadStep) (later : List ℕ)
      → w.write_counter + nonces_for writes ≤ 4_294_967_296
      → wire answers ++ later ≡ (run_writes aead w writes).1
      → (rest : List ℕ) × ((run_writes aead w writes).2
          ≡ (run_reads aead rooms answers r).2 ++ rest)
        × OnlyBelow (run_reads aead rooms answers r).0.sticky_err
  run_reads-run_writes writes rooms answers later room on_wire =
      let a = arrived writes rooms answers later room on_wire in
      (
        unread (run_reads aead rooms answers r).0 ++ text_of a.frames,
        a.text,
        OnlyBelow-all (run_reads aead rooms answers r).0.sticky_err a.reader.fair,
      )

  -- Nothing is held back: for a new writer and a new reader with the same key, a cipher that opens what
  -- it seals, and enough nonces, if all that the writer took was sent and has been given to the
  -- reader, and the reader's next poll waits for more, then it has delivered the whole text.
  pub run_reads_complete :
      (writes : List WriteCall) (rooms : List ℕ) (answers : List ReadStep) (last_room : ℕ)
      → w.write_counter + nonces_for writes ≤ 4_294_967_296
      → wire answers ≡ (run_writes aead w writes).1
      → unsent (run_writes aead w writes).0 ≡ []
      → (run_reads aead rooms answers r).1 ≡ []
      → (poll_read aead last_room [] (run_reads aead rooms answers r).0).0.answer ≡ pending
      → (poll_read aead last_room [] (run_reads aead rooms answers r).0).1 ≡ []
      → (run_writes aead w writes).2 ≡ (run_reads aead rooms answers r).2
  run_reads_complete writes rooms answers last_room room on_wire flushed used waits still_used =
      let a = arrived writes rooms answers [] room (append-nil (wire answers) ∙ on_wire) in
      let after = (run_reads aead rooms answers r).0 in
      let reads =
        poll_read-Reads aead w.write_key last_room [] after
          ([] ++ unsent (run_writes aead w writes).0) a.frames
          (subst
            (λ l.
              IsReader aead w.write_key after
                (wire l ++ ([] ++ unsent (run_writes aead w writes).0)) a.frames)
            used a.reader) in
      let none_left : unread after ++ text_of a.frames ≡ [] =
        reads.delivers
        ∙ ap
            (λ (p : Poll (List ℕ)).
              delivered p
              ++ (unread (poll_read aead last_room [] after).0.after ++ text_of reads.frames))
            waits
        ∙ reads.complete waits still_used flushed in
      a.text
      ∙ ap (λ (l : List ℕ). (run_reads aead rooms answers r).2 ++ l) none_left
      ∙ append-nil (run_reads aead rooms answers r).2
