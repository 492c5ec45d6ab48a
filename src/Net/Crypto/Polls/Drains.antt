-- ===== src/Net/Crypto/Polls/Drains.antt =====
-- try_drain_out and poll_flush of rust_frp_net/src/crypto.rs write out the buffer, whatever the connection below
-- accepts.
use rust_frp.Common.{
  ℕ, zero, suc, Option, none, some, ltb, ◌≡◌, refl, sym, ◌∙◌, ap, inl, inr, List, [], ◌∷◌, ◌++◌,
  length, take, drop, arith, Bool-cases, take-append-drop, drop-drop, drop-beyond,
}
use mathlib.Core.List.{append_assoc}
use rust_frp.Net.Crypto.{
  Stream, StreamError, write_zero, inner_failed, Wrote, wrote, write_pending, write_failed, Poll,
  ready, pending, failed,
}
use rust_frp.Net.Crypto.Polls.{
  Polled, answered, after_sending, wrote_some, while_left, try_drain_out, unless_failed, poll_flush,
}

-- What waits to be written.
abbrev pub unsent : Stream → List ℕ
unsent s = drop s.out_pos s.out_buf

abbrev pub IsReady : {A : Type 0} → Poll A → Type 0
IsReady (ready a) = Unit
IsReady pending = ⊥
IsReady (failed e) = ⊥

-- A poll that only writes: nothing is lost, and its success means that nothing is left.
pub record Drains {A : Type 0} (s : Stream) (p : Polled A) : Type 0 where
  pub key : p.after.write_key ≡ s.write_key
  pub prefix : p.after.nonce_prefix ≡ s.nonce_prefix
  pub counter : p.after.write_counter ≡ s.write_counter
  pub sends : p.sent ++ unsent p.after ≡ unsent s
  pub empties : IsReady p.answer → (p.after.out_buf ≡ []) × (p.after.out_pos ≡ 0)

stuck-Drains : {A : Type 0} (s : Stream) (p : Poll A) → (IsReady p → ⊥) → Drains s (answered s p)
stuck-Drains s p unready = record {
  key = refl;
  prefix = refl;
  counter = refl;
  sends = refl;
  empties = λ r. absurd (unready r);
}

failed-Drains :
    {A : Type 0} (s : Stream) (e : StreamError)
    → Drains s (answered {A = A} (record s { sticky_err = some e }) (failed e))
failed-Drains s e = record {
  key = refl;
  prefix = refl;
  counter = refl;
  sends = refl;
  empties = λ r. absurd r;
}

while_left-Drains :
    (s : Stream) (flush : Poll (Unit {0})) (round : Polled (Unit {0}))
    → Drains s round
    → Drains s (while_left s flush round)
while_left-Drains s flush round d = elim (Bool-cases (ltb s.out_pos (length s.out_buf))) [
  | inl left ↦ rw left d
  | inr over ↦ rw over (record {
    key = refl;
    prefix = refl;
    counter = refl;
    sends = sym (drop-beyond s.out_pos s.out_buf (ground arith));
    empties = λ r. (refl, refl);
  })
]

sending-Drains :
    (s : Stream) (n : ℕ) (p : Polled (Unit {0}))
    → Drains (wrote_some s n) p
    → Drains s (after_sending (take n (unsent s)) p)
sending-Drains s n p d = record {
  key = d.key;
  prefix = d.prefix;
  counter = d.counter;
  sends =
      append_assoc (take n (unsent s)) p.sent (unsent p.after)
      ∙ ap (λ (l : List ℕ). take n (unsent s) ++ l) (d.sends ∙ drop-drop s.out_pos n s.out_buf)
      ∙ take-append-drop n (unsent s);
  empties = d.empties;
}

pub try_drain_out-Drains :
    (flush : Poll (Unit {0})) (answers : List Wrote) (s : Stream)
    → Drains s (try_drain_out flush answers s)
unfolding try_drain_out
try_drain_out-Drains flush [] s = while_left-Drains s flush _ (stuck-Drains s pending λ r. r)
try_drain_out-Drains flush (wrote zero ∷ answers) s =
    while_left-Drains s flush _ (failed-Drains s write_zero)
try_drain_out-Drains flush (wrote (suc n) ∷ answers) s = while_left-Drains s flush _ (
    sending-Drains s (suc n) (try_drain_out flush answers (wrote_some s (suc n)))
      (try_drain_out-Drains flush answers (wrote_some s (suc n))))
try_drain_out-Drains flush (write_failed ∷ answers) s =
    while_left-Drains s flush _ (failed-Drains s inner_failed)
try_drain_out-Drains flush (write_pending ∷ answers) s =
    while_left-Drains s flush _ (stuck-Drains s pending λ r. r)

unless_failed-Drains :
    {A : Type 0} (s : Stream) (o : Option StreamError) (p : Polled A)
    → Drains s p
    → Drains s (unless_failed s o p)
unless_failed-Drains s (some e) p d = stuck-Drains s (failed e) λ r. r
unless_failed-Drains s none p d = d

pub poll_flush-Drains :
    (flush : Poll (Unit {0})) (answers : List Wrote) (s : Stream)
    → Drains s (poll_flush flush answers s)
unfolding poll_flush
poll_flush-Drains flush answers s =
    unless_failed-Drains s s.sticky_err _ (try_drain_out-Drains flush answers s)
