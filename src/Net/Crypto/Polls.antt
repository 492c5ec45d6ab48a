-- ===== src/Net/Crypto/Polls.antt =====
-- The polls of the stream in rust_frp_net/src/crypto.rs. The connection below is given by its answers, one
-- for each call; when they are used up it answers that it is not ready.
pub mod Drains
pub mod Sealing
pub mod Written
pub mod Reader
pub mod Reads
pub mod Delivered
pub mod Channel
pub mod Arrival
mod Runs
use rust_frp.Common.{
  ℕ, zero, suc, ◌+◌, ◌-◌, min, Option, none, some, Bool, true, false, Result, ok, err, ltb, ◌==◌,
  List, [], ◌∷◌, ◌++◌, length, take, drop, if◌then◌else◌,
}
use rust_frp.Net.Crypto.{
  Aead, Stream, StreamError, write_zero, inner_failed, mid_frame_eof, Wrote, wrote, write_pending,
  write_failed, ReadStep, got, read_pending, read_failed, Poll, ready, pending, failed, chunks,
  seal_chunks, try_decrypt_frame,
}

-- What a poll leaves, what it wrote to the connection, and its answer.
pub record Polled (A : Type 0) : Type 0 where
  pub after : Stream
  pub sent : List ℕ
  pub answer : Poll A

abbrev pub answered : {A : Type 0} → Stream → Poll A → Polled A
answered s p = record { after = s; sent = []; answer = p }

-- Bytes that were written before the poll went on.
abbrev pub after_sending : {A : Type 0} → List ℕ → Polled A → Polled A
after_sending bytes p = record p { sent = bytes ++ p.sent }

-- The buffer is written: it is emptied and the connection flushed.
abbrev pub emptied : Stream → Stream
emptied s = record s { out_buf = []; out_pos = 0 }

abbrev pub wrote_some : Stream → ℕ → Stream
wrote_some s n = record s { out_pos = s.out_pos + n }

-- The loop goes on while there is something to write.
abbrev pub while_left : Stream → Poll (Unit {0}) → Polled (Unit {0}) → Polled (Unit {0})
while_left s flush round =
    if ltb s.out_pos (length s.out_buf) then round else answered (emptied s) flush

unfoldable pub try_drain_out : Poll (Unit {0}) → List Wrote → Stream → Polled (Unit {0})
try_drain_out flush [] s = while_left s flush (answered s pending)
try_drain_out flush (wrote zero ∷ answers) s =
    while_left s flush (answered (record s { sticky_err = some write_zero }) (failed write_zero))
try_drain_out flush (wrote (suc n) ∷ answers) s = while_left s flush (
    after_sending (take (suc n) (drop s.out_pos s.out_buf))
      (try_drain_out flush answers (wrote_some s (suc n))))
try_drain_out flush (write_failed ∷ answers) s =
    while_left s flush
      (answered (record s { sticky_err = some inner_failed }) (failed inner_failed))
try_drain_out flush (write_pending ∷ answers) s = while_left s flush (answered s pending)

-- The sticky error comes first in every poll.
abbrev pub unless_failed : {A : Type 0} → Stream → Option StreamError → Polled A → Polled A
unless_failed s (some e) poll = answered s (failed e)
unless_failed s none poll = poll

unfoldable pub poll_flush : Poll (Unit {0}) → List Wrote → Stream → Polled (Unit {0})
poll_flush flush answers s = unless_failed s s.sticky_err (try_drain_out flush answers s)

abbrev pub shut_after : Poll (Unit {0}) → Polled (Unit {0}) → Polled (Unit {0})
shut_after shutdown p = elim p.answer [
  | ready u ↦ record p { answer = shutdown }
  | pending ↦ p
  | failed e ↦ p
]

unfoldable pub poll_shutdown :
    Poll (Unit {0}) → Poll (Unit {0}) → List Wrote → Stream → Polled (Unit {0})
unfolding poll_flush
poll_shutdown shutdown flush answers s = shut_after shutdown (poll_flush flush answers s)

-- The end of a read: as much of the plain text as the reader has room for.
abbrev pub rewound : Stream → Stream
rewound s = if s.in_pos == length s.in_plain then record s { in_plain = []; in_pos = 0 } else s

abbrev pub copy_out : ℕ → ℕ → Stream → Polled (List ℕ)
copy_out from room s =
    let n = min room (length s.in_plain - from) in
    answered (rewound (record s { in_pos = from + n })) (ready (take n (drop from s.in_plain)))

-- The answers of a connection while it is written to, and that of its flush, before and after the sealing.
pub record Below : Type 0 where
  pub first_answers : List Wrote
  pub first_flush : Poll (Unit {0})
  pub last_answers : List Wrote
  pub last_flush : Poll (Unit {0})

module _ (aead : Aead) where
  -- The last try to write is not looked at.
  abbrev pub written : Below → List ℕ → Stream × Option StreamError → Polled ℕ
  written below text (s, some e) = answered s (failed e)
  written below text (s, none) =
      let drained = try_drain_out below.last_flush below.last_answers s in
      record { after = drained.after; sent = drained.sent; answer = ready (length text) }

  abbrev pub write_after : Below → List ℕ → Stream → Poll (Unit {0}) → Polled ℕ
  write_after below text s (ready u) =
      written below text (seal_chunks aead (chunks (length text) text) s)
  write_after below text s pending = answered s pending
  write_after below text s (failed e) = answered s (failed e)

  unfoldable pub poll_write : Below → List ℕ → Stream → Polled ℕ
  unfolding try_drain_out
  poll_write below text s =
      let drained = try_drain_out below.first_flush below.first_answers s in
      unless_failed s s.sticky_err
        (after_sending drained.sent (write_after below text drained.after drained.answer))

  -- What is read from the connection: its answer, and what is left of its answers.
  abbrev pub Reading : Type 0
  Reading = Polled (List ℕ) × List ReadStep

  abbrev pub read_below : (List ℕ → Reading) → Stream → ReadStep → List ReadStep → Reading
  read_below continue s (got []) answers =
      if length s.rx_buf == 0
      then (answered s (ready []), answers)
      else (answered (record s { sticky_err = some mid_frame_eof }) (failed mid_frame_eof), answers)
  read_below continue s (got (b ∷ bytes)) answers = continue (b ∷ bytes)
  read_below continue s read_pending answers = (answered s pending, answers)
  read_below continue s read_failed answers =
      (answered (record s { sticky_err = some inner_failed }) (failed inner_failed), answers)

  -- One round of the loop: a frame is delivered, or the connection is asked.
  abbrev pub read_round :
      (Stream → Reading) → ℕ → Stream → List ReadStep → Result StreamError (Bool × Stream) → Reading
  read_round ask room s answers (ok (true, opened)) = (copy_out 0 room opened, answers)
  read_round ask room s answers (ok (false, same)) = ask same
  read_round ask room s answers (err e) =
      (answered (record s { sticky_err = some e }) (failed e), answers)

  unfoldable pub read_loop : ℕ → List ReadStep → Stream → Reading
  unfolding try_decrypt_frame
  read_loop room [] s =
      read_round (λ same. (answered same pending, [])) room s [] (try_decrypt_frame aead s)
  read_loop room (step ∷ answers) s =
      read_round
        (λ same.
          read_below
            (λ bytes. read_loop room answers (record same { rx_buf = same.rx_buf ++ bytes })) same
            step answers)
        room s (step ∷ answers) (try_decrypt_frame aead s)

  abbrev pub read_ready : ℕ → List ReadStep → Stream → Reading
  read_ready room answers s =
      if ltb s.in_pos (length s.in_plain)
      then (copy_out s.in_pos room s, answers)
      else read_loop room answers s

  abbrev pub read_unless : Stream → Option StreamError → List ReadStep → Reading → Reading
  read_unless s (some e) answers reading = (answered s (failed e), answers)
  read_unless s none answers reading = reading

  unfoldable pub poll_read : ℕ → List ReadStep → Stream → Reading
  unfolding read_loop
  poll_read room answers s = read_unless s s.sticky_err answers (read_ready room answers s)
