-- ===== src/Net/Crypto/Polls/Delivered.antt =====
-- However the bytes arrive, poll_read of rust_frp_net/src/crypto.rs delivers the text of the frames, in
-- order.
use rust_frp.Common.{
  ℕ, Option, none, some, true, false, ltb, ◌==◌, ◌≡◌, refl, ap, subst, inl, inr, List, [], ◌∷◌,
  ◌++◌, length, arith, Bool-cases,
}
use mathlib.Core.List.{append_assoc}
use rust_frp.Net.Crypto.{
  Aead, Stream, StreamError, ReadStep, got, read_pending, read_failed, ready, pending, failed,
  inner_failed, mid_frame_eof,
}
use rust_frp.Net.Crypto.Polls.{Reading, read_below, read_loop, read_ready, read_unless, poll_read}
use rust_frp.Net.Crypto.Polls.Sealing.{Sealed}
use rust_frp.Net.Crypto.Polls.Reader.{wire, IsReader, opens_one, waits, next}
use rust_frp.Net.Crypto.Polls.Reads.{
  Reads, copied-Reads, stopped-Reads, stuck-IsReader, grown-IsReader, grown-Reads, opened-Reads,
  waiting_complete,
}

module _ (aead : Aead) (key : List ℕ) where
  -- The connection is asked, as no frame is complete.
  asked-Reads :
      (r : Stream) (continue : List ℕ → Reading aead) (later : List ℕ) (fs : List Sealed)
      (step : ReadStep) (answers : List ReadStep)
      → IsReader aead key r (wire (step ∷ answers) ++ later) fs
      → r.in_plain ≡ []
      → r.in_pos ≡ 0
      → (wire (step ∷ answers) ++ later ≡ [] → fs ≡ [])
      → ((bytes : List ℕ)
          → IsReader aead key (record r { rx_buf = r.rx_buf ++ bytes }) (wire answers ++ later) fs
          → Reads aead key r later fs (continue bytes))
      → Reads aead key r later fs (read_below aead continue r step answers)
  asked-Reads r continue later fs (got []) answers v empty start over further =
      elim (Bool-cases (length r.rx_buf == 0)) [
        | inl ended ↦ rw ended (
            stopped-Reads aead key r r later fs answers (ready []) v refl refl refl tt
              λ p. absurd (ground (arith, p)))
        | inr cut ↦ rw cut (
            stopped-Reads aead key r (record r { sticky_err = some mid_frame_eof }) later fs answers
              (failed mid_frame_eof)
              (stuck-IsReader aead key r (wire answers ++ later) fs mid_frame_eof (inr refl) v) refl
              refl refl (inr refl) λ p. absurd (ground (arith, p)))
      ]
  asked-Reads r continue later fs (got (b ∷ bytes)) answers v empty start over further =
      further (b ∷ bytes) (
        grown-IsReader aead key r (b ∷ bytes) (wire answers ++ later) fs
          (subst (λ l. IsReader aead key r l fs) (append_assoc (b ∷ bytes) (wire answers) later) v))
  asked-Reads r continue later fs read_pending answers v empty start over further =
      stopped-Reads aead key r r later fs answers pending v refl refl refl tt
        λ p none_later no_answers.
          waiting_complete aead key r (wire answers ++ later) fs empty start over
            (rw (none_later, no_answers) refl)
  asked-Reads r continue later fs read_failed answers v empty start over further =
      stopped-Reads aead key r (record r { sticky_err = some inner_failed }) later fs answers
        (failed inner_failed)
        (stuck-IsReader aead key r (wire answers ++ later) fs inner_failed (inl refl) v) refl refl
        refl (inl refl) λ p. absurd (ground (arith, p))

  read_loop-Reads :
      (room : ℕ) (answers : List ReadStep) (r : Stream) (later : List ℕ) (fs : List Sealed)
      → IsReader aead key r (wire answers ++ later) fs
      → r.in_plain ≡ []
      → r.in_pos ≡ 0
      → Reads aead key r later fs (read_loop aead room answers r)
  unfolding read_loop
  read_loop-Reads room [] r later fs v empty start = elim (next aead key r later fs v) [
    | opens_one f gs rest opened split valid in_order ↦
        rw opened
          (opened-Reads aead key r room later fs gs f rest [] v empty start split valid in_order)
    | waits more over ↦ rw more (
        stopped-Reads aead key r r later fs [] pending v refl refl refl tt
          λ p none_later no_answers.
            waiting_complete aead key r later fs empty start over none_later)
  ]
  read_loop-Reads room (step ∷ answers) r later fs v empty start =
      elim (next aead key r (wire (step ∷ answers) ++ later) fs v) [
        | opens_one f gs rest opened split valid in_order ↦ rw opened (
            opened-Reads aead key r room later fs gs f rest (step ∷ answers) v empty start split
              valid in_order)
        | waits more over ↦ rw more (
            asked-Reads r
              (λ bytes. read_loop aead room answers (record r { rx_buf = r.rx_buf ++ bytes })) later
              fs step answers v empty start over
              λ bytes grown.
                grown-Reads aead key r bytes later fs
                  (read_loop aead room answers (record r { rx_buf = r.rx_buf ++ bytes }))
                  (read_loop-Reads room answers (record r { rx_buf = r.rx_buf ++ bytes }) later fs
                    grown empty start))
      ]

  read_ready-Reads :
      (room : ℕ) (answers : List ReadStep) (r : Stream) (later : List ℕ) (fs : List Sealed)
      → IsReader aead key r (wire answers ++ later) fs
      → Reads aead key r later fs (read_ready aead room answers r)
  read_ready-Reads room answers r later fs v = elim v.tidy [
    | inl some_left ↦
        let more : ltb r.in_pos (length r.in_plain) ≡ true = ground arith in
        rw more (
          copied-Reads aead key r r r.in_pos room later fs fs answers (omega (arith, some_left))
            v.own_key v.in_order v.fair v.valid refl)
    | inr (empty, start) ↦
        let none_left : ltb r.in_pos (length r.in_plain) ≡ false =
          ground (arith, start, ap length empty) in
        rw none_left (read_loop-Reads room answers r later fs v empty start)
  ]

  read_unless-Reads :
      (o : Option StreamError) (answers : List ReadStep) (r : Stream) (later : List ℕ)
      (fs : List Sealed) (x : Reading aead)
      → r.sticky_err ≡ o
      → IsReader aead key r (wire answers ++ later) fs
      → Reads aead key r later fs x
      → Reads aead key r later fs (read_unless aead r o answers x)
  read_unless-Reads (some e) answers r later fs x stuck v reads =
      stopped-Reads aead key r r later fs answers (failed e) v refl refl refl (v.fair e stuck)
        λ p. absurd (ground (arith, p))
  read_unless-Reads none answers r later fs x none_yet v reads = reads

  pub poll_read-Reads :
      (room : ℕ) (answers : List ReadStep) (r : Stream) (later : List ℕ) (fs : List Sealed)
      → IsReader aead key r (wire answers ++ later) fs
      → Reads aead key r later fs (poll_read aead room answers r)
  unfolding poll_read
  poll_read-Reads room answers r later fs v =
      read_unless-Reads r.sticky_err answers r later fs (read_ready aead room answers r) refl v
        (read_ready-Reads room answers r later fs v)
