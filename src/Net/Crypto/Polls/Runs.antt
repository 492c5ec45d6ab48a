-- ===== src/Net/Crypto/Polls/Runs.antt =====
-- The polls of rust_frp_net/src/crypto.rs at concrete inputs: a writer whose connection takes 20 bytes and then
-- the rest, and a reader whose connection gives 10 bytes, waits, and gives the rest.
use rust_frp.Common.{ℕ, none, ◌≡◌, refl, List, [], ◌∷◌, ◌++◌, take, drop, replicate, arith}
use rust_frp.Net.Crypto.{
  Stream, wrote, ReadStep, got, read_pending, ready, chunks, seal_chunks, seal_into_out_buf,
  next_nonce, try_decrypt_frame,
}
use rust_frp.Net.Crypto.Tagging.{tagging, tagging-Opens, tagging-Seals}
use rust_frp.Net.Crypto.Polls.{Below, try_drain_out, poll_write, poll_flush, poll_read, read_loop}
use rust_frp.Net.Crypto.Polls.Channel.{
  WriteCall, writes, flushes, nonces_for, run_writes, run_reads,
}
use rust_frp.Net.Crypto.Polls.Arrival.{IsNew, OnlyBelow, run_reads-run_writes, run_reads_complete}

abbrev new_stream : Stream
new_stream = record {
  read_key = 2 ∷ [];
  write_key = 2 ∷ [];
  nonce_prefix = replicate 8 3;
  write_counter = 0;
  out_buf = [];
  out_pos = 0;
  rx_buf = [];
  in_plain = [];
  in_pos = 0;
  sticky_err = none;
}

new_stream-IsNew : IsNew new_stream
new_stream-IsNew = record {
  prefix = refl;
  nothing_out = refl;
  start_out = refl;
  nothing_in = refl;
  nothing_read = refl;
  start_in = refl;
  no_error = refl;
}

abbrev text : List ℕ
text = 7 ∷ 8 ∷ 9 ∷ []

abbrev piecewise : Below
piecewise = record {
  first_answers = [];
  first_flush = ready tt;
  last_answers = wrote 20 ∷ [];
  last_flush = ready tt;
}

abbrev write_calls : List WriteCall
write_calls = writes piecewise text ∷ flushes (ready tt) (wrote 15 ∷ []) ∷ []

abbrev on_the_wire : List ℕ
on_the_wire = 0 ∷ 0 ∷ 0 ∷ 31 ∷ replicate 8 3 ++ (0 ∷ 0 ∷ 0 ∷ 0 ∷ 7 ∷ 8 ∷ 9 ∷ []) ++ replicate 16 0

abbrev arrivals : List ReadStep
arrivals = got (take 10 on_the_wire) ∷ read_pending ∷ got (drop 10 on_the_wire) ∷ []

abbrev rooms : List ℕ
rooms = 2 ∷ 2 ∷ 2 ∷ []

all_sent :
    run_writes tagging new_stream write_calls
    ≡ ((run_writes tagging new_stream write_calls).0, on_the_wire, text)
unfolding run_writes poll_write poll_flush try_drain_out chunks seal_chunks seal_into_out_buf
    next_nonce
all_sent = refl

all_read : (run_reads tagging rooms arrivals new_stream).2 ≡ text
unfolding run_reads poll_read read_loop try_decrypt_frame
all_read = refl

-- One nonce is needed.
few : nonces_for write_calls ≡ 1
few = unfold chunks in refl

run_reads-run_writes_example :
    (rest : List ℕ) × ((run_writes tagging new_stream write_calls).2
      ≡ (run_reads tagging rooms arrivals new_stream).2 ++ rest)
    × OnlyBelow (run_reads tagging rooms arrivals new_stream).0.sticky_err
run_reads-run_writes_example =
    run_reads-run_writes tagging tagging-Opens tagging-Seals new_stream new_stream new_stream-IsNew
      new_stream-IsNew refl write_calls rooms arrivals [] (omega (arith, few))
      (unfold run_writes poll_write poll_flush try_drain_out chunks seal_chunks seal_into_out_buf
          next_nonce in
        refl)

run_reads_complete_example :
    (run_writes tagging new_stream write_calls).2 ≡ (run_reads tagging rooms arrivals new_stream).2
run_reads_complete_example =
    run_reads_complete tagging tagging-Opens tagging-Seals new_stream new_stream new_stream-IsNew
      new_stream-IsNew refl write_calls rooms arrivals 5 (omega (arith, few))
      (unfold run_writes poll_write poll_flush try_drain_out chunks seal_chunks seal_into_out_buf
          next_nonce in
        refl)
      (unfold run_writes poll_write poll_flush try_drain_out chunks seal_chunks seal_into_out_buf
          next_nonce in
        refl)
      (unfold run_reads poll_read read_loop try_decrypt_frame in refl)
      (unfold run_reads poll_read read_loop try_decrypt_frame in refl)
      (unfold run_reads poll_read read_loop try_decrypt_frame in refl)
